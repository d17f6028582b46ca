-- ===== src/Ext2/Path/Split.antt =====
-- `create_path` against the join of its results.
use csc_369_operating_system.Common.{
  ℕ, suc, ◌+◌, ◌-◌, false, List, [], ◌∷◌, ◌++◌, some, ◌==◌, length, ◌≡◌, ◌≢◌, refl, ap, ◌∙◌, arith,
}
use csc_369_operating_system.Ext2.Outcome.{done}
use csc_369_operating_system.Ext2.Path.{
  slash, has_slash, count_substrs, get_path_substr_count, cut, with_parent, cut_parents,
  create_path,
}

-- The parents and the child with slashes between them.
unfoldable pub join : List (List ℕ) → List ℕ → List ℕ
join [] child = child
join (p ∷ ps) child = p ++ slash ∷ join ps child

unfoldable pub ArePlain : List (List ℕ) → Type 0
ArePlain [] = Unit
ArePlain (p ∷ ps) = (has_slash p ≡ false) × ArePlain ps

count_substrs-append :
    (w r : List ℕ) (b : ℕ)
    → has_slash w ≡ false
    → count_substrs false b (w ++ slash ∷ r) ≡ suc (count_substrs false slash r)
unfolding count_substrs has_slash
count_substrs-append [] r b plain = omega arith
count_substrs-append (c ∷ w) r b plain = ground (arith, plain, count_substrs-append w r c)

count_substrs-join :
    (ps : List (List ℕ)) (child : List ℕ)
    → ArePlain ps
    → count_substrs false slash child ≡ 1
    → count_substrs false slash (join ps child) ≡ suc (length ps)
unfolding join ArePlain
count_substrs-join [] child plain last = last
count_substrs-join (p ∷ ps) child plain last =
    count_substrs-append p (join ps child) slash plain.0
    ∙ ap suc (count_substrs-join ps child plain.1 last)

cut-append : (w r : List ℕ) → has_slash w ≡ false → cut (w ++ slash ∷ r) ≡ (w, some r)
unfolding cut has_slash
cut-append [] r plain = refl
cut-append (c ∷ w) r plain =
    let e : (c == slash) ≡ false = ground (arith, plain) in
    rw (e, cut-append w r (ground (arith, plain, e))) refl

cut_parents-cut :
    (n : ℕ) (prev w r : List ℕ)
    → cut prev ≡ (w, some r)
    → cut_parents (suc n) prev ≡ with_parent w (cut_parents n r)
unfolding cut_parents
cut_parents-cut n prev w r e = rw (cut_parents, e, e) refl

cut_parents-join :
    (ps : List (List ℕ)) (child : List ℕ)
    → ArePlain ps
    → cut_parents (length ps) (join ps child) ≡ done (ps, child)
unfolding cut_parents join ArePlain
cut_parents-join [] child plain = refl
cut_parents-join (p ∷ ps) child plain =
    cut_parents-cut (length ps) (p ++ slash ∷ join ps child) p (join ps child)
      (cut-append p (join ps child) plain.0)
    ∙ ap (with_parent p) (cut_parents-join ps child plain.1)

create_path-counted :
    (ps : List (List ℕ)) (child : List ℕ)
    → ArePlain ps
    → count_substrs false slash child ≡ 1
    → create_path (slash ∷ join ps child) ≡ done (ps, child)
unfolding create_path get_path_substr_count has_slash count_substrs
create_path-counted ps child plain last =
    let levels : 0 + suc (length ps) - 1 ≡ length ps = omega arith in
    rw (count_substrs-join ps child plain last, levels) (cut_parents-join ps child plain)

count_substrs-plain :
    (w : List ℕ) (b : ℕ) → has_slash w ≡ false → b ≢ slash → count_substrs false b w ≡ 1
unfolding count_substrs has_slash
count_substrs-plain [] b plain ne = ground (arith, ne)
count_substrs-plain (c ∷ w) b plain ne = ground (arith, plain, count_substrs-plain w c)

-- `create_path` takes a path apart that is joined from parents and a child without slashes, if the
-- child is not empty: it gives back the parents and the child.
pub create_path-join :
    (parents : List (List ℕ)) (c : ℕ) (w : List ℕ)
    → ArePlain parents
    → has_slash (c ∷ w) ≡ false
    → create_path (slash ∷ join parents (c ∷ w)) ≡ done (parents, c ∷ w)
unfolding has_slash count_substrs
create_path-join parents c w plain_parents plain =
    create_path-counted parents (c ∷ w) plain_parents
      (ground (arith, plain, count_substrs-plain w c))

-- With a slash at its end, the same path has the same parents, and the slash is part of the child.
pub create_path-trailing :
    (parents : List (List ℕ)) (c : ℕ) (w : List ℕ)
    → ArePlain parents
    → has_slash (c ∷ w) ≡ false
    → create_path (slash ∷ join parents ((c ∷ w) ++ slash ∷ []))
      ≡ done (parents, (c ∷ w) ++ slash ∷ [])
unfolding count_substrs
create_path-trailing parents c w plain_parents plain =
    let ends : count_substrs false slash [] ≡ 0 = refl in
    create_path-counted parents ((c ∷ w) ++ slash ∷ []) plain_parents
      (count_substrs-append (c ∷ w) [] slash plain ∙ ap suc ends)
