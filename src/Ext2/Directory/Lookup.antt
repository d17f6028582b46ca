-- ===== src/Ext2/Directory/Lookup.antt =====
-- The search of A4/util.c in a directory block, against the list of its entries.
use csc_369_operating_system.Common.{
  ℕ, zero, suc, ◌+◌, ◌-◌, ◌*◌, ◌^◌, ◌<◌, ◌≤◌, Bool, true, false, List, [], ◌∷◌, Option, some,
  length, if◌then◌else◌, ◌==◌, ltb, ◌≡◌, ◌≢◌, refl, arith, inl, inr, Bool-cases, lt→ltb, eq-false,
}
use csc_369_operating_system.Ext2.Outcome.{done}
use csc_369_operating_system.Ext2.Image.{
  State, Inode, load8, load16, load32, copy_inode, u16, u32, disk_size, block_size, minus,
}
use csc_369_operating_system.Ext2.Directory.{
  indirect_blk_index, names_match, check_entries, check_block_for_dir, check_i_blocks,
  dir_entry_exists, root_ino,
}

pub record Entry : Type 0 where
  pub inode : ℕ
  pub len : ℕ
  pub name : List ℕ

-- The bytes at an offset are those of the list, and none is 0.
unfoldable pub Reads : (ℕ → ℕ) → ℕ → List ℕ → Type 0
Reads disk a [] = Unit
Reads disk a (c ∷ w) = (disk a ≡ c) × (c ≢ 0) × Reads disk (a + 1) w

-- The entry stands at an offset, within the image.
pub record Stands (disk : ℕ → ℕ) (a : ℕ) (e : Entry) : Type 0 where
  pub inside : a + 8 + length e.name ≤ disk_size
  pub inode : u32 disk a ≡ e.inode
  pub len : u16 disk (a + 4) ≡ e.len
  pub name_len : disk (a + 6) ≡ length e.name
  pub name : Reads disk (a + 8) e.name

-- The entries fill the bytes from an offset on, of which there are `mem`.
unfoldable pub Listed : (ℕ → ℕ) → ℕ → ℕ → List Entry → Type 0
Listed disk a mem [] = mem ≡ 0
Listed disk a mem (e ∷ es) =
    Stands disk a e × (0 < e.len) × (e.len ≤ mem) × Listed disk (a + e.len) (mem - e.len) es

unfoldable pub is_prefix : List ℕ → List ℕ → Bool
is_prefix [] name = true
is_prefix (c ∷ p) [] = false
is_prefix (c ∷ p) (x ∷ name) = let rest = is_prefix p name in if x == c then rest else false

-- The inode of the first entry whose name the searched name starts with, or 0.
unfoldable pub lookup : List Entry → List ℕ → ℕ
lookup [] name = 0
lookup (e ∷ es) name =
    let later = lookup es name in if is_prefix e.name name then e.inode else later

names_match-is_prefix :
    (name p : List ℕ) (a : ℕ) (s : State)
    → Reads s.disk a p
    → a + length p ≤ disk_size
    → names_match name a (length p) s ≡ done (is_prefix p name, s)
unfolding names_match load8 is_prefix Reads
names_match-is_prefix name [] a s reads inside = refl
names_match-is_prefix [] (c ∷ p) a s reads inside =
    let near = lt→ltb a disk_size (omega (arith, inside)) in
    let e : (c == 0) ≡ false = eq-false c 0 reads.1 in rw (near, reads.0, e) refl
names_match-is_prefix (x ∷ name) (c ∷ p) a s reads inside =
    let near = lt→ltb a disk_size (omega (arith, inside)) in
    elim (Bool-cases (x == c)) [
      | inl e ↦
          rw (near, reads.0, e)
            (names_match-is_prefix name p (a + 1) s reads.2 (omega (arith, inside)))
      | inr e ↦ rw (near, reads.0, e) refl
    ]

check_entries-lookup :
    (fuel mem a : ℕ) (es : List Entry) (name : List ℕ) (s : State)
    → mem < fuel
    → Listed s.disk a mem es
    → check_entries fuel mem a name s ≡ done (lookup es name, s)
unfolding check_entries load8 load16 load32 lookup Listed
check_entries-lookup fuel zero a [] name s enough listed = refl
check_entries-lookup fuel (suc mem) a [] name s enough listed = absurd (omega (arith, listed))
check_entries-lookup fuel zero a (e ∷ es) name s enough listed =
    absurd (omega (arith, listed.1, listed.2))
check_entries-lookup zero (suc mem) a (e ∷ es) name s enough listed = absurd (omega arith)
check_entries-lookup (suc fuel) (suc mem) a (e ∷ es) name s enough listed =
    let stands = listed.0 in
    let near6 : ltb (a + 6) disk_size ≡ true =
      lt→ltb (a + 6) disk_size (omega (arith, stands.inside)) in
    let near3 : ltb (a + 3) disk_size ≡ true =
      lt→ltb (a + 3) disk_size (omega (arith, stands.inside)) in
    let near5 : ltb (a + 4 + 1) disk_size ≡ true =
      lt→ltb (a + 4 + 1) disk_size (omega (arith, stands.inside)) in
    let match = names_match-is_prefix name e.name (a + 8) s stands.name stands.inside in
    elim (Bool-cases (is_prefix e.name name)) [
      | inl is ↦ rw (near6, stands.name_len, match, is, near3, stands.inode) refl
      | inr isnt ↦
          rw (near6, stands.name_len, match, isnt, near5, stands.len)
            (check_entries-lookup fuel (suc mem - e.len) (a + e.len) es name s
              (omega (arith, listed.1)) listed.3)
    ]

-- In a block that its entries fill, `check_block_for_dir` finds the first entry whose name the
-- searched name starts with, and gives its inode, or 0 if there is none.
pub check_block_for_dir-lookup :
    (b : ℕ) (es : List Entry) (name : List ℕ) (s : State)
    → Listed s.disk (b * block_size) block_size es
    → check_block_for_dir b name s ≡ done (lookup es name, s)
unfolding check_block_for_dir
check_block_for_dir-lookup b es name s listed =
    check_entries-lookup (block_size + 1) block_size (b * block_size) es name s (omega arith) listed

-- The blocks of a directory inode from an index into `i_block` on, which entries fill each, up to
-- the first 0. `a` is the offset of `i_block`.
unfoldable pub Filled : (ℕ → ℕ) → ℕ → ℕ → List (List Entry) → Type 0
Filled disk a k [] = u32 disk (a + 4 * k) ≡ 0
Filled disk a k (es ∷ blocks) =
    (0 < u32 disk (a + 4 * k))
    × Listed disk (u32 disk (a + 4 * k) * block_size) block_size es
    × Filled disk a (k + 1) blocks

-- An inode of a directory whose entries fill its blocks, none of them indirect.
pub record IsDirectory (disk : ℕ → ℕ) (inode_at : ℕ) (blocks : List (List Entry)) : Type 0 where
  pub inside : inode_at + 127 < disk_size
  pub direct : length blocks ≤ indirect_blk_index
  pub filled : Filled disk (inode_at + 40) 0 blocks

-- The lookup in the blocks, one after the other.
unfoldable pub lookup_blocks : List (List Entry) → List ℕ → ℕ
lookup_blocks [] name = 0
lookup_blocks (es ∷ blocks) name =
    let later = lookup_blocks blocks name in if lookup es name == 0 then later else lookup es name

-- `IND_TABLE[i]` in a state.
abbrev inode_in : State → ℕ → Inode
inode_in s i =
    let a = s.ind_table + 128 * i in
    record {
      i_mode = u16 s.disk a;
      i_ctime = u32 s.disk (a + 12);
      i_dtime = u32 s.disk (a + 20);
      i_links_count = u16 s.disk (a + 26);
      i_block = λ k. u32 s.disk (a + 40 + 4 * k);
    }

copy_inode-inside :
    (i : ℕ) (s : State)
    → s.ind_table + 128 * i + 127 < disk_size
    → copy_inode i s ≡ done (inode_in s i, s)
unfolding copy_inode
copy_inode-inside i s inside = rw (lt→ltb (s.ind_table + 128 * i + 127) disk_size inside) refl

check_i_blocks-lookup :
    (left k i : ℕ) (blocks : List (List Entry)) (section : List ℕ) (s : State)
    → k + left ≡ 12
    → k + length blocks ≤ indirect_blk_index
    → Filled s.disk (s.ind_table + 128 * i + 40) k blocks
    → check_i_blocks left k (inode_in s i) section s ≡ done (lookup_blocks blocks section, s)
unfolding check_i_blocks Filled lookup_blocks
check_i_blocks-lookup zero k i blocks section s whole direct filled =
    absurd (omega (arith, whole, direct))
check_i_blocks-lookup (suc left) k i [] section s whole direct filled = rw filled refl
check_i_blocks-lookup (suc left) k i (es ∷ blocks) section s whole direct filled =
    let b = u32 s.disk (s.ind_table + 128 * i + 40 + 4 * k) in
    let used : (b == 0) ≡ false = ground (arith, filled.0) in
    let early : (k == indirect_blk_index) ≡ false = ground (arith, direct) in
    let found = check_block_for_dir-lookup b es section s filled.1 in
    let rest =
      check_i_blocks-lookup left (k + 1) i blocks section s (omega (arith, whole))
        (omega (arith, direct)) filled.2 in
    elim (Bool-cases (lookup es section == 0)) [
      | inl missing ↦ rw (used, early, found, missing) rest
      | inr there ↦ rw (used, early, found, there) refl
    ]

-- `dir_entry_exists` with a starting number below 2 ^ 32, 0 standing for the root, where entries
-- fill the blocks of that directory, and none is indirect: it gives the inode of the first entry
-- whose name the first component of the path starts with, or 0. The other components are left
-- aside.
pub dir_entry_exists-lookup :
    (section : List ℕ) (path : List (Option (List ℕ))) (num : ℕ) (blocks : List (List Entry))
    (s : State)
    → num < 2 ^ 32
    → IsDirectory s.disk (s.ind_table + 128 * ((if num == 0 then root_ino else num) - 1)) blocks
    → dir_entry_exists (some section ∷ path) num s ≡ done (lookup_blocks blocks section, s)
unfolding dir_entry_exists
dir_entry_exists-lookup section path num blocks s small dir =
    let start = if num == 0 then root_ino else num in
    let less : minus start 1 ≡ start - 1 = ground (arith, small) in
    rw (less, copy_inode-inside (start - 1) s dir.inside)
      (check_i_blocks-lookup 12 0 (start - 1) blocks section s refl (omega (arith, dir.direct))
        dir.filled)
