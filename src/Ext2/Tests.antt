-- ===== src/Ext2/Tests.antt =====
-- Small images and paths.
use csc_369_operating_system.Common.{
  not, length, ap, ℕ, ◌+◌, ◌-◌, ◌*◌, ◌<◌, true, false, List, [], ◌∷◌, none, some, length,
  if◌then◌else◌, ◌==◌, update, ◌≡◌, ◌≢◌, refl, arith,
}
use csc_369_operating_system.Ext2.Outcome.{fault, done}
use csc_369_operating_system.Ext2.Path.{
  slash, starts_with_slash, has_slash, normalize_path, create_path,
}
use csc_369_operating_system.Ext2.Path.Normal.{
  overlaps, components, IsSingle, normalize_path-components,
}
use csc_369_operating_system.Ext2.Path.Split.{join, ArePlain, create_path-join}
use csc_369_operating_system.Ext2.Bits.{test}
use csc_369_operating_system.Ext2.Image.{State, Bitmap, inds, block_size}
use csc_369_operating_system.Ext2.Bitmap.{find_n_free, set_used_bit, toggle_bits, init_globals}
use csc_369_operating_system.Ext2.Bitmap.Many.{clear_bits, numbered, find_n_free-numbered}
use csc_369_operating_system.Ext2.Bitmap.Find.{bit_at, First}
use csc_369_operating_system.Ext2.Bitmap.Toggle.{AreWithin, odd, toggle_bits-odd}
use csc_369_operating_system.Ext2.Bitmap.Use.{Names, set_used_bit-Names}
use csc_369_operating_system.Ext2.Bitmap.Scan.{Spare}
use csc_369_operating_system.Ext2.Bitmap.Boot.{wiped, Serves, init_globals-Serves}
use csc_369_operating_system.Ext2.Directory.{dir_entry_exists}
use csc_369_operating_system.Ext2.Directory.Lookup.{
  Entry, Reads, Listed, Filled, lookup, lookup_blocks, is_prefix, IsDirectory,
  dir_entry_exists-lookup,
}
use csc_369_operating_system.Ext2.Command.Remove.{rm_inode}
use csc_369_operating_system.Ext2.Command.Doom.{rm_inode-doomed}

-- An image of zeros but for some bytes.
abbrev image : List (ℕ × ℕ) → ℕ → ℕ
image [] = λ a. 0
image ((a, v) ∷ bytes) = update (image bytes) a v

-- Counts, the places of the bitmaps and of the inode table, free counts; the inode of the root
-- directory, whose block 9 has entries for itself and for `ab`.
abbrev bytes : ℕ → ℕ
bytes = image (
    (1024, 32)
    ∷ (1028, 128)
    ∷ (2048, 3)
    ∷ (2052, 4)
    ∷ (2056, 5)
    ∷ (2060, 100)
    ∷ (2062, 20)
    ∷ (5288, 9)
    ∷ (9216, 2)
    ∷ (9220, 12)
    ∷ (9222, 1)
    ∷ (9224, b'.')
    ∷ (9228, 12)
    ∷ (9232, 244)
    ∷ (9233, 3)
    ∷ (9234, 2)
    ∷ (9236, b'a')
    ∷ (9237, b'b')
    ∷ [])

abbrev fields : ℕ → ℕ → Bitmap
fields sys_bm n = record {
  sys_bm = sys_bm;
  num_bits_avail = n;
  avail_byte_index = 1;
  avail_bit_index = 2;
  curr_avail_num = 11;
}

abbrev start : State
start = record {
  disk = bytes;
  ind_bmap = fields 4096 21;
  blk_bmap = fields 3072 98;
  inds_count = 32;
  blks_count = 128;
  ind_table = 5120;
}

bit_10 : bit_at bytes 4096 10 ≡ false
unfolding test
bit_10 = refl

bit_12 : bit_at bytes 4096 12 ≡ false
unfolding test
bit_12 = refl

-- The numbers 11 and 12 are in use no more, and the fields name 13.
abbrev late : State
late = record start { ind_bmap = record (fields 4096 21) { curr_avail_num = 13 } }

two_clear : clear_bits bytes 4096 2 10 ≡ 10 ∷ 11 ∷ []
unfolding clear_bits test
two_clear = refl

find_n_free-numbered_example :
    find_n_free inds 2 late ≡ done (numbered 2 13 (clear_bits bytes 4096 2 10), late)
find_n_free-numbered_example =
    find_n_free-numbered inds late 2 2 (omega arith) (omega (arith, ap length two_clear))
      (omega arith) (omega arith)

shifted : numbered 2 13 (10 ∷ 11 ∷ []) ≡ 13 ∷ 14 ∷ []
unfolding numbered
shifted = refl

set_used_bit-Names_example :
    (s' : State) × (t' : ℕ) × (set_used_bit inds start ≡ done (tt, s'))
    × ((k : ℕ) → bit_at s'.disk 4096 k ≡ (if 10 == k then true else bit_at bytes 4096 k))
    × (s'.ind_bmap.sys_bm ≡ 4096)
    × (s'.ind_bmap.num_bits_avail ≡ 21 - 1)
    × Names s'.ind_bmap t'
    × First s'.disk 4096 10 12 t'
set_used_bit-Names_example =
    set_used_bit-Names inds start 10 12 (record { byte = refl; bit = refl; num = refl })
      (omega arith) (omega arith) bit_10 (omega arith) (omega arith) (omega arith) bit_12
      (omega arith)

abbrev numbers : List ℕ
numbers = 11 ∷ 12 ∷ 11 ∷ []

numbers-AreWithin : AreWithin 4096 numbers
unfolding AreWithin
numbers-AreWithin = (
  omega arith,
  omega arith,
  omega arith,
  (omega arith, omega arith, omega arith, (omega arith, omega arith, omega arith, tt)),
)

toggle_bits-odd_example :
    (last' : ℕ) × (disk : ℕ → ℕ) × (toggle_bits inds numbers (length numbers) 0 start
      ≡ done (last', record start { disk = disk }))
    × ((k : ℕ)
        → bit_at disk 4096 k
          ≡ (if odd k numbers then not (bit_at bytes 4096 k) else bit_at bytes 4096 k))
toggle_bits-odd_example = toggle_bits-odd inds numbers 0 start numbers-AreWithin

bit_10-Spare : Spare (wiped bytes) 4096 32 10
unfolding test
bit_10-Spare = record {
  late = omega arith;
  counted = omega arith;
  clear = refl;
  inside = omega arith;
}

block_10-Spare : Spare (wiped bytes) 3072 128 10
unfolding test
block_10-Spare = record {
  late = omega arith;
  counted = omega arith;
  clear = refl;
  inside = omega arith;
}

init_globals-Serves_example :
    (s' : State) × (init_globals start ≡ done (tt, s'))
    × (s'.disk ≡ wiped bytes)
    × (s'.inds_count ≡ 32)
    × (s'.blks_count ≡ 128)
    × (s'.ind_table ≡ 5120)
    × Serves (wiped bytes) s'.ind_bmap 4096 20 10
    × Serves (wiped bytes) s'.blk_bmap 3072 100 10
init_globals-Serves_example = init_globals-Serves start 10 10 bit_10-Spare block_10-Spare

-- The path `/////a//`, whose slashes are dropped without an overlap.
abbrev slashes : List ℕ
slashes = slash ∷ slash ∷ slash ∷ slash ∷ slash ∷ b'a' ∷ slash ∷ slash ∷ []

normalize_path-components_example :
    (p : List ℕ) × (normalize_path slashes ≡ (if overlaps none slashes then fault else done p))
    × (components p ≡ components slashes)
    × IsSingle p
    × (starts_with_slash p ≡ true)
normalize_path-components_example =
    normalize_path-components slashes (omega arith) (omega arith) refl

abbrev above : List (List ℕ)
above = (b'a' ∷ []) ∷ (b'b' ∷ b'c' ∷ []) ∷ []

above-ArePlain : ArePlain above
unfolding ArePlain has_slash
above-ArePlain = (refl, (refl, tt))

child_plain : has_slash (b'd' ∷ b'e' ∷ []) ≡ false
unfolding has_slash
child_plain = refl

create_path-join_example :
    create_path (slash ∷ join above (b'd' ∷ b'e' ∷ [])) ≡ done (above, b'd' ∷ b'e' ∷ [])
create_path-join_example = create_path-join above b'd' (b'e' ∷ []) above-ArePlain child_plain

abbrev entries : List Entry
entries =
    record { inode = 2; len = 12; name = b'.' ∷ [] }
    ∷ record { inode = 12; len = 1012; name = b'a' ∷ b'b' ∷ [] }
    ∷ []

one_byte : (c : ℕ) → 0 < c → c ≢ 0
one_byte c positive e = omega (arith, positive, e)

entries-Listed : Listed bytes (9 * block_size) block_size entries
unfolding Listed Reads
entries-Listed = (
  record {
    inside = omega arith;
    inode = refl;
    len = refl;
    name_len = refl;
    name = (refl, one_byte b'.' (omega arith), tt);
  },
  omega arith,
  omega arith,
  (
    record {
      inside = omega arith;
      inode = refl;
      len = refl;
      name_len = refl;
      name = (refl, one_byte b'a' (omega arith), (refl, one_byte b'b' (omega arith), tt));
    },
    omega arith,
    omega arith,
    refl,
  ),
)

root-IsDirectory : IsDirectory bytes (5120 + 128) (entries ∷ [])
unfolding Filled
root-IsDirectory = record {
  inside = omega arith;
  direct = omega arith;
  filled = (omega arith, entries-Listed, refl);
}

-- The search for `abc` finds `ab`.
dir_entry_exists-lookup_example :
    dir_entry_exists (some (b'a' ∷ b'b' ∷ b'c' ∷ []) ∷ none ∷ []) 0 start
    ≡ done (lookup_blocks (entries ∷ []) (b'a' ∷ b'b' ∷ b'c' ∷ []), start)
dir_entry_exists-lookup_example =
    dir_entry_exists-lookup (b'a' ∷ b'b' ∷ b'c' ∷ []) (none ∷ []) 0 (entries ∷ []) start
      (omega arith) root-IsDirectory

lookup_prefix : lookup_blocks (entries ∷ []) (b'a' ∷ b'b' ∷ b'c' ∷ []) ≡ 12
unfolding lookup_blocks lookup is_prefix
lookup_prefix = refl

abbrev fresh : List ℕ
fresh = b'x' ∷ []

-- The parent `.` is the root directory.
lookup_self : lookup_blocks (entries ∷ []) (b'.' ∷ []) ≡ 2
unfolding lookup_blocks lookup is_prefix
lookup_self = refl

self-IsDirectory :
    IsDirectory bytes (5120 + 128 * (lookup_blocks (entries ∷ []) (b'.' ∷ []) - 1)) (entries ∷ [])
self-IsDirectory = rw lookup_self root-IsDirectory

rm_inode-doomed_example : rm_inode 12 start ≢ done (tt, start)
rm_inode-doomed_example = rm_inode-doomed 12 start (tt, start)
