-- ===== src/Lib.antt =====
-- Course assignments on operating systems, in C: a system call interceptor (A1), an
-- intersection of one-lane roads with threads (A2), a virtual memory simulator (A3) and tools
-- for an ext2 image (A4). The four share no code and no state.
--
-- Common: tests, lists as C arrays, `int` as the integers, and `Run`, a state monad in which
-- `none` is a fault, such as a null pointer followed, a failed assertion or a lock taken twice.
--
-- A1/interceptor.c is the module Interceptor. State is the kernel module's state: `table`, the
-- system call table with the permission of its page, the two spinlocks and the log. PidList has
-- add_pid_sysc, del_pid_sysc, del_pid, destroy_list and check_pid_monitored; Command has
-- my_syscall with one function per command; Hooks has interceptor, my_exit_group,
-- deinterceptor, init_function and exit_function. The other files prove: Effect what one
-- command does to the state, Consistent, Safety and Exit that it is safe, Watch and Logging who
-- is monitored, Unload and Session what is left after the module is gone.
--
-- A2/cars.c, A2/traffic.c and A2/traffic.h are the module Traffic. Turn has compute_path, Lane
-- the ring buffer of a lane, System the threads of car_arrive and car_cross as a relation
-- between states, and Schedule parse_schedule. A step is a critical section of a lane, going to
-- sleep on a condition variable, the lock or unlock of one quadrant, or one of the two accesses
-- to out_cars in complete_cross. Fifo shows that the ring buffer is a queue; Invariant,
-- Beginning and Preserve treat all reachable states, Wake the sleeping threads, Across the cars
-- in the intersection, Progress what can go on, Ending the length of a run, and Weight and
-- Delivery the cars at the exits. The array quad has the indices 0 to 3 and the paths have the
-- quadrants 1 to 4: a thread that is to lock quadrant 4 takes no step, and IsStray names it.
--
-- A3 is the module Memory. Bitmap has the bitmap of A3/swap.c. Machine has the global variables
-- of A3/sim.c, A3/pagetable.c and A3/swap.c as one record, whose field `alg` is the state of
-- the replacement algorithm. PageTable.Swap has swap_pagein and swap_pageout,
-- PageTable.Translate has allocate_frame and find_physpage, and access_mem and replay_trace of
-- A3/sim.c; PageTable.Links, PageTable.Transfer, PageTable.Allocate, PageTable.Arrival and
-- PageTable.Resident prove what they keep. Policy has A3/clock.c, A3/rand.c, A3/fifo.c,
-- A3/lru.c and A3/opt.c, and Policy.Queue, Recency, Removal, Order and Reference the orders
-- that the links of fifo and lru stand for; Policy.Usage and Policy.Recent fit the order of lru
-- to the frames in use. The page table calls the replacement algorithm through `Functions`, as
-- the code does; `IsPolicy` in PageTable.Promise is what it needs of it. Replay joins both, and
-- Boot has the part of main that initialises and replays. Content says where the contents of a
-- page are, in its frame or in the swap file, and follows them through an eviction (Place,
-- Leave, Evict), the arrival of a page (Settle, Arrive, Enter) and a trace (Trace); Outcome
-- treats the whole simulation. Main has main with its table of algorithms, and Main.Dispatch
-- how it ends. Cache has the ideal least recently used cache of pages that A3/lru.c is to
-- implement, and its children compare the two: Pairs the frames with the pages, Full the order
-- with the frames in use, Given, Access and Hits the steps of an access; Recent and Larger
-- compare caches of different sizes.
--
-- A4 is the module Ext2. Image has the mapped image, a function from offsets to bytes, with the
-- structures of A4/ext2.h and the global variables of A4/util.h; Path, Bitmap and Directory
-- have A4/util.c; Command has A4/ext2_rm.c, A4/ext2_restore.c, A4/ext2_mkdir.c, A4/ext2_ln.c
-- and A4/ext2_cp.c, and Checker has A4/ext2_checker.c. Outcome is their monad: a function
-- returns, exits with an error, does what C leaves undefined, or does not end. Path.Normal and
-- Path.Split treat paths; Bitmap.Find, Many, Flip, Toggle and Use what the operations do to the
-- bits, Scan and Boot what init_globals finds; Directory.Lookup the search in a directory;
-- Words what stores leave on the image; Command.Doom and Command.Exists parts of two commands,
-- and Checker.Counts the counters.
--
-- Bounds. An `int` that counts is unbounded, as are `version` and an offset into the swap file.
-- A frame number wraps at 2 ^ 20, since it shares 32 bits with 12 flags; the sizes of a bitmap
-- wrap at 2 ^ 32, and an index into the page directory does too. Fuel: `clock_loop` has one
-- round more than there are frames, and each round but the last clears a reference bit, so that
-- it does not run out. The image of A4 has 131072 bytes, and an access past them is undefined.
-- The searches for a free bit have the fuel `search_fuel`, one more than the image has bits;
-- the loops over a block one more than it has bytes, since each round takes off at least one,
-- or stands still for ever; the loops over the table of an indirect block more than the image
-- has entries. Where the fuel of these ends, the code does not. All else is structural.
--
-- Parameters. The kernel gives the owner of each task and whether memory is found. The swap
-- file is a `Device`; where the contents of pages count, it is an `IsReliable` one, which takes
-- every write and gives back at a place what was written there last, and the swap space has
-- room for the pages of the trace. `mkstemp` makes that file or fails. The numbers of `random`
-- are a sequence. `malloc` outside A1 and posix_memalign are taken to succeed. What a lane's
-- mutex covers is one step, and a thread in pthread_cond_wait wakes by a signal only. A page
-- table entry is pointed to by the number of its page, and a frame by its index.
--
-- Not modelled: what is printed, option parsing and file parsing; the functions main, but for
-- that of A3/sim.c from the initialisation on; the test and trace programs; A4/readimage.c,
-- which only prints; the loop of A4/ext2_cp.c, which no file reaches, since it is read into a
-- null pointer before; what A4 writes to copies of inodes, which is lost.
pub mod Common
pub mod Interceptor
pub mod Traffic
pub mod Memory
pub mod Ext2
