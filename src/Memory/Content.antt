-- ===== src/Memory/Content.antt =====
-- The contents of the pages: what a memory without frames and swap space would hold, and where the
-- simulator of A3 keeps it.
pub mod Place
pub mod Leave
pub mod Evict
pub mod Settle
pub mod Arrive
pub mod Enter
pub mod Trace
mod Tests
use csc_369_operating_system.Common.{
  ℕ, ◌+◌, ◌*◌, ◌/◌, ◌<◌, ◌≤◌, Bool, true, false, List, [], ◌∷◌, Option, none, some, if◌then◌else◌,
  ◌==◌, update, length, ◌≡◌, ◌≢◌,
}
use csc_369_operating_system.Memory.Bitmap.Bits.{Bitmap}
use csc_369_operating_system.Memory.Bitmap.Alloc.{bit}
use csc_369_operating_system.Memory.Machine.{Page, Pte, Device, Machine}
use csc_369_operating_system.Memory.PageTable.Swap.{simpagesize}
use csc_369_operating_system.Memory.PageTable.Translate.{page_of}
use csc_369_operating_system.Memory.Policy.Queue.{Absent, IsDistinct}

-- The contents of a page on its first access, which stay what they were if it has some.
abbrev pub first_content : ℕ → Option Page → Page
first_content vaddr none = record { version = 0; vaddr = vaddr }
first_content vaddr (some c) = c

abbrev pub written : Bool → Page → Page
written true c = record c { version = c.version + 1 }
written false c = c

-- The pages after an access, in a memory that holds them all.
abbrev pub remember : ℕ → Bool → (ℕ → Option Page) → ℕ → Option Page
remember vaddr write mem =
    update mem (page_of vaddr) (some (written write (first_content vaddr (mem (page_of vaddr)))))

-- The pages after a trace.
unfoldable pub remember_all : List (ℕ × Bool) → (ℕ → Option Page) → ℕ → Option Page
remember_all [] mem = mem
remember_all ((vaddr, write) ∷ lines) mem = remember_all lines (remember vaddr write mem)

module _ {F : Type 0} where
  -- A swap file that takes every write, keeps the page written last at each place, and gives it
  -- back. Places are the multiples of SIMPAGESIZE.
  pub record IsReliable (d : Device F) (get : F → ℕ → Option Page) : Type 0 where
    pub writes : (file : F) (off : ℕ) (page : Page) → (d.write file off page).1 ≡ true
    pub stores : (file : F) (off : ℕ) (page : Page) → get (d.write file off page).0 off ≡ some page
    pub keeps :
        (file : F) (i j : ℕ) (page : Page)
        → i ≢ j
        → get (d.write file (i * simpagesize) page).0 (j * simpagesize) ≡ get file (j * simpagesize)
    pub reads :
        (file : F) (off : ℕ) (old page : Page)
        → get file off ≡ some page
        → (d.read file off old).0 ≡ page

  -- Where the contents of one page are, by its entry: in its frame, at its place in the swap file,
  -- or nowhere yet.
  pub record Kept (get : F → ℕ → Option Page) (e : Pte) (physmem : ℕ → Page) (file : F)
      (c : Option Page) : Type 0 where
    pub resident : e.valid ≡ true → c ≡ some (physmem e.number)
    pub swapped :
        e.valid ≡ false
        → e.onswap ≡ true
        → (off : ℕ) × (page : Page) × (e.swap_off ≡ some off)
          × (get file off ≡ some page)
          × (c ≡ some page)
    pub unseen : e.valid ≡ false → e.onswap ≡ false → (c ≡ none) × (e.swap_off ≡ none)

-- The page that was the `i`-th to be given a place. The list has the newest first.
unfoldable pub placed_at : List ℕ → ℕ → Option ℕ
placed_at [] i = none
placed_at (q ∷ placed) i =
    let earlier = placed_at placed i in if i == length placed then some q else earlier

-- The places in the swap file: in the order in which they were given away, no page has two, and the
-- bitmap marks them. They go to the given pages only, for which there are enough.
pub record Slots (swap_off : ℕ → Option ℕ) (b : Bitmap) (placed pages : List ℕ) : Type 0 where
  pub offs :
      (q off : ℕ)
      → swap_off q ≡ some off
      → (i : ℕ) × (placed_at placed i ≡ some q) × (off ≡ i * simpagesize)
  pub without : (q : ℕ) → swap_off q ≡ none → Absent q placed
  pub distinct : IsDistinct placed
  pub among : (q : ℕ) → Absent q pages → Absent q placed
  pub marked : (k : ℕ) → k < length placed → bit b.v k ≡ true
  pub clear : (k : ℕ) → length placed ≤ k → k < b.nbits → bit b.v k ≡ false
  pub room : length pages ≤ b.nbits

module _ {F P : Type 0} where
  -- All contents are kept. While a page is out, all frames are in use. A table that is not open has
  -- no page in the swap file.
  pub record Stored (get : F → ℕ → Option Page) (pages : List ℕ) (m : Machine F P)
      (mem : ℕ → Option Page) : Type 0 where
    pub kept : (q : ℕ) → Kept get (m.ptes q) m.physmem m.swapfile (mem q)
    pub placed : List ℕ
    pub slots : Slots (λ q. (m.ptes q).swap_off) m.swapmap placed pages
    pub crowded :
        (q : ℕ)
        → (m.ptes q).valid ≡ false
        → (m.ptes q).onswap ≡ true
        → (f : ℕ) → f < m.memsize
        → (m.coremap f).in_use ≡ true
    pub known : (q : ℕ) → (m.ptes q).valid ≡ true → ¬ Absent q pages
    pub closed : (q : ℕ) → m.pgdir (q / 4096) ≡ false → (m.ptes q).onswap ≡ false
