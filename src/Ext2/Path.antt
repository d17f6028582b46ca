-- ===== src/Ext2/Path.antt =====
-- `normalize_path`, `get_path_substr_count` and `create_path` of A4/util.c. A string is the list of
-- its bytes before the NUL.
pub mod Normal
pub mod Split
use csc_369_operating_system.Common.{
  ℕ, zero, suc, ◌+◌, ◌-◌, Bool, true, false, ◌&&◌, ◌||◌, not, List, [], ◌∷◌, Option, none, some,
  if◌then◌else◌, ◌==◌, ltb, length,
}
use csc_369_operating_system.Ext2.Outcome.{Exit, enoent, Outcome, done, exits, fault, hangs}

abbrev pub slash : ℕ
slash = b'/'

abbrev pub starts_with_slash : List ℕ → Bool
starts_with_slash [] = false
starts_with_slash (c ∷ s) = c == slash

abbrev pub prepend : ℕ → Outcome (List ℕ) → Outcome (List ℕ)
prepend c (done s) = done (c ∷ s)
prepend c (exits e) = exits e
prepend c fault = fault
prepend c hangs = hangs

-- The loop of `normalize_path`: up to the next slash, and behind a slash, where all slashes that
-- follow are dropped. `some k` is behind a slash that `k` more have followed. The `memcpy` at the
-- end of such a run moves what is left of the path, with its NUL, by `k` bytes; where that is less
-- than what is moved, source and destination overlap, which C leaves undefined.
unfoldable pub trim : Option ℕ → List ℕ → Outcome (List ℕ)
trim after [] = done []
trim none (c ∷ s) =
    let in_run = trim (some 0) s in
    let past = trim none s in prepend c (if c == slash then in_run else past)
trim (some k) (c ∷ s) =
    let in_run = trim (some (k + 1)) s in
    let past = trim none s in
    if c == slash
    then in_run
    else if ltb 0 k && ltb k (length (c ∷ s) + 1)
    then fault
    else prepend c past

abbrev pub first_two : List ℕ → List ℕ
first_two (a ∷ b ∷ s) = a ∷ b ∷ []
first_two s = s

unfoldable pub normalize_path : List ℕ → Outcome (List ℕ)
normalize_path path =
    if ltb (length path) 2 || not (starts_with_slash path)
    then exits enoent
    else if length path == 3
    then done (first_two path)
    else trim none path

-- `strstr(path, "/")` as a test.
unfoldable pub has_slash : List ℕ → Bool
has_slash [] = false
has_slash (c ∷ s) = c == slash || has_slash s

-- The loop of `get_path_substr_count`, from an index on: the byte before it, and whether the index
-- is 0.
unfoldable pub count_substrs : Bool → ℕ → List ℕ → ℕ
count_substrs first before [] = if before == slash then 0 else 1
count_substrs first before (c ∷ s) =
    (if c == slash && not first then 1 else 0) + count_substrs false c s

unfoldable pub get_path_substr_count : List ℕ → ℕ
get_path_substr_count path = if has_slash path then count_substrs true 0 path else 1

-- What lies before the first slash, and what behind it, if there is one.
unfoldable pub cut : List ℕ → List ℕ × Option (List ℕ)
cut [] = ([], none)
cut (c ∷ s) = let later = cut s in if c == slash then ([], some s) else (c ∷ later.0, later.1)

abbrev pub with_parent :
    List ℕ → Outcome (List (List ℕ) × List ℕ) → Outcome (List (List ℕ) × List ℕ)
with_parent section (done (parents, child)) = done (section ∷ parents, child)
with_parent section (exits e) = exits e
with_parent section fault = fault
with_parent section hangs = hangs

-- The loop of `create_path` and what follows it, from `prev_char` on: the parents and the child.
-- Without a slash the next `prev_char` would lie behind the NUL.
unfoldable pub cut_parents : ℕ → List ℕ → Outcome (List (List ℕ) × List ℕ)
cut_parents zero prev = done ([], prev)
cut_parents (suc n) prev = elim (cut prev).1 [
  | none ↦ fault
  | some rest ↦ with_parent (cut prev).0 (cut_parents n rest)
]

unfoldable pub create_path : List ℕ → Outcome (List (List ℕ) × List ℕ)
create_path [] = fault
create_path (c ∷ s) =
    cut_parents (get_path_substr_count (c ∷ s) - 1) (if c == slash then s else c ∷ s)
