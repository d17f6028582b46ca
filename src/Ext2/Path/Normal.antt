-- ===== src/Ext2/Path/Normal.antt =====
-- `normalize_path` against the components of a path.
use csc_369_operating_system.Common.{
  ℕ, ◌≤◌, ◌+◌, ltb, ◌&&◌, ◌||◌, Option, none, some, Bool, true, false, not, List, [], ◌∷◌,
  if◌then◌else◌, ◌==◌, length, ◌≡◌, ◌≢◌, refl, arith, ◌⊎◌, inl, inr, Bool-cases, eq-false,
}
use csc_369_operating_system.Ext2.Outcome.{Outcome, done, fault}
use csc_369_operating_system.Ext2.Path.{slash, starts_with_slash, prepend, trim, normalize_path}

-- The path goes on with a byte of a component.
abbrev pub starts_plain : List ℕ → Bool
starts_plain [] = false
starts_plain (c ∷ s) = not (c == slash)

-- A byte in front of a component, or as a component of its own.
abbrev pub attach : ℕ → Bool → List (List ℕ) → List (List ℕ)
attach c true (w ∷ ws) = (c ∷ w) ∷ ws
attach c _ ws = (c ∷ []) ∷ ws

-- The components of a path: its longest parts without a slash.
unfoldable pub components : List ℕ → List (List ℕ)
components [] = []
components (c ∷ s) =
    let later = components s in if c == slash then later else attach c (starts_plain s) later

-- No slash stands next to another.
unfoldable pub IsSingle : List ℕ → Type 0
IsSingle [] = Unit
IsSingle (a ∷ []) = Unit
IsSingle (a ∷ b ∷ s) = ((a ≢ slash) ⊎ (b ≢ slash)) × IsSingle (b ∷ s)

-- A string with one slash in place of every run of them; the flag is whether the last byte was one.
unfoldable squeezed : Bool → List ℕ → List ℕ
squeezed after [] = []
squeezed true (c ∷ s) =
    let in_run = squeezed true s in
    let past = squeezed false s in if c == slash then in_run else c ∷ past
squeezed false (c ∷ s) =
    let in_run = squeezed true s in
    let past = squeezed false s in if c == slash then c ∷ in_run else c ∷ past

-- Somewhere behind two or more slashes stands a part of a path that, with all that follows it, is
-- at least as long as the slashes but the first. The number counts the slashes but the first of
-- the run that the string follows, if it follows one.
unfoldable pub overlaps : Option ℕ → List ℕ → Bool
overlaps after [] = false
overlaps none (c ∷ s) =
    let in_run = overlaps (some 0) s in
    let past = overlaps none s in if c == slash then in_run else past
overlaps (some k) (c ∷ s) =
    let in_run = overlaps (some (k + 1)) s in
    let past = overlaps none s in
    if c == slash then in_run else ltb 0 k && ltb k (length (c ∷ s) + 1) || past

abbrev in_a_run : Option ℕ → Bool
in_a_run none = false
in_a_run (some k) = true

abbrev unless : Bool → List ℕ → Outcome (List ℕ)
unless bad s = if bad then fault else done s

prepend-unless : (c : ℕ) (bad : Bool) (s : List ℕ) → prepend c (unless bad s) ≡ unless bad (c ∷ s)
prepend-unless c true s = refl
prepend-unless c false s = refl

trim-squeezed :
    (after : Option ℕ) (s : List ℕ)
    → trim after s ≡ unless (overlaps after s) (squeezed (in_a_run after) s)
unfolding trim squeezed overlaps
trim-squeezed none [] = refl
trim-squeezed (some k) [] = refl
trim-squeezed none (c ∷ s) = elim (Bool-cases (c == slash)) [
  | inl e ↦
      rw (e, trim-squeezed (some 0) s) (prepend-unless c (overlaps (some 0) s) (squeezed true s))
  | inr e ↦ rw (e, trim-squeezed none s) (prepend-unless c (overlaps none s) (squeezed false s))
]
trim-squeezed (some k) (c ∷ s) = elim (Bool-cases (c == slash)) [
  | inl e ↦ rw e (trim-squeezed (some (k + 1)) s)
  | inr e ↦ elim (Bool-cases (ltb 0 k && ltb k (length (c ∷ s) + 1))) [
    | inl bad ↦ rw (e, bad) refl
    | inr fine ↦
        rw (e, fine, trim-squeezed none s) (prepend-unless c (overlaps none s) (squeezed false s))
  ]
]

starts_plain-squeezed : (s : List ℕ) → starts_plain (squeezed false s) ≡ starts_plain s
unfolding squeezed
starts_plain-squeezed [] = refl
starts_plain-squeezed (c ∷ s) = ground arith

components-squeezed : (after : Bool) (s : List ℕ) → components (squeezed after s) ≡ components s
unfolding components squeezed
components-squeezed after [] = refl
components-squeezed true (c ∷ s) = elim (Bool-cases (c == slash)) [
  | inl e ↦ rw e (components-squeezed true s)
  | inr e ↦ rw (e, e, starts_plain-squeezed s, components-squeezed false s) refl
]
components-squeezed false (c ∷ s) = elim (Bool-cases (c == slash)) [
  | inl e ↦ rw (e, e) (components-squeezed true s)
  | inr e ↦ rw (e, e, starts_plain-squeezed s, components-squeezed false s) refl
]

IsSingle-after_plain : (c : ℕ) (s : List ℕ) → c ≢ slash → IsSingle s → IsSingle (c ∷ s)
unfolding IsSingle
IsSingle-after_plain c [] ne single = tt
IsSingle-after_plain c (b ∷ s) ne single = (inl ne, single)

-- Behind a slash no slash is left.
squeezed-no_slash :
    (b : ℕ) (s : List ℕ) → IsSingle (squeezed true s) → IsSingle (b ∷ squeezed true s)
unfolding IsSingle squeezed
squeezed-no_slash b [] single = tt
squeezed-no_slash b (c ∷ s) single = elim (Bool-cases (c == slash)) [
  | inl e ↦ rw e (squeezed-no_slash b s (rw e at single))
  | inr e ↦ rw e ((inr (λ h. ground (arith, e, h)), rw e at single))
]

squeezed-IsSingle : (after : Bool) (s : List ℕ) → IsSingle (squeezed after s)
unfolding IsSingle squeezed
squeezed-IsSingle after [] = tt
squeezed-IsSingle true (c ∷ s) = elim (Bool-cases (c == slash)) [
  | inl e ↦ rw e (squeezed-IsSingle true s)
  | inr e ↦ rw e (
      IsSingle-after_plain c (squeezed false s) (λ h. ground (arith, e, h))
        (squeezed-IsSingle false s))
]
squeezed-IsSingle false (c ∷ s) = elim (Bool-cases (c == slash)) [
  | inl e ↦ rw e (squeezed-no_slash c s (squeezed-IsSingle true s))
  | inr e ↦ rw e (
      IsSingle-after_plain c (squeezed false s) (λ h. ground (arith, e, h))
        (squeezed-IsSingle false s))
]

squeezed-starts :
    (s : List ℕ) → starts_with_slash s ≡ true → starts_with_slash (squeezed false s) ≡ true
unfolding squeezed
squeezed-starts [] start = start
squeezed-starts (c ∷ s) start = ground (arith, start)

-- For a path of two or of more than three bytes that starts with a slash: `normalize_path` copies
-- between regions that overlap, which is undefined, exactly if `overlaps` holds; otherwise the
-- result has the same components, no two slashes next to each other, and starts with a slash.
pub normalize_path-components :
    (path : List ℕ)
    → 2 ≤ length path
    → length path ≢ 3
    → starts_with_slash path ≡ true
    → (p : List ℕ) × (normalize_path path ≡ (if overlaps none path then fault else done p))
      × (components p ≡ components path)
      × IsSingle p
      × (starts_with_slash p ≡ true)
unfolding normalize_path
normalize_path-components path long ne start = (
  squeezed false path,
  ground (arith, long, ne, start, trim-squeezed none path),
  components-squeezed false path,
  squeezed-IsSingle false path,
  squeezed-starts path start,
)

-- A path of a slash and two bytes of a name loses the last byte.
pub normalize_path-short :
    (a b : ℕ)
    → a ≢ slash
    → b ≢ slash
    → (normalize_path (slash ∷ a ∷ b ∷ []) ≡ done (slash ∷ a ∷ []))
      × (components (slash ∷ a ∷ b ∷ []) ≡ (a ∷ b ∷ []) ∷ [])
      × (components (slash ∷ a ∷ []) ≡ (a ∷ []) ∷ [])
unfolding normalize_path components
normalize_path-short a b plain_a plain_b =
    let e = eq-false a slash plain_a in
    let f = eq-false b slash plain_b in (refl, rw (e, f) refl, rw e refl)
