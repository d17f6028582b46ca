-- ===== src/Memory/Cache.antt =====
-- The least recently used replacement that A3/lru.c is to implement, on the pages alone: the cache is
-- the list of the pages in memory, the least recently used first.
pub mod Pairs
pub mod Full
pub mod Given
pub mod Access
pub mod Hits
pub mod Recent
pub mod Larger
mod Tests
use csc_369_operating_system.Common.{
  ℕ, zero, suc, ◌+◌, ◌*◌, ◌/◌, ◌%◌, ◌^◌, ◌<◌, ◌≤◌, Bool, true, false, List, [], ◌∷◌, Option, none,
  some, if◌then◌else◌, ◌==◌, update, length, ◌≡◌, ◌≢◌, refl, sym, ap, ◌∙◌, arith, ◌⊎◌, inl, inr,
  Bool-cases, Option-cases, ℕ_discrete, eq-false, subst, fun_ext, update_self, update-same, lt→ltb,
  not, ◌++◌,
}
use csc_369_operating_system.Memory.PageTable.Translate.{page_of}
use csc_369_operating_system.Memory.Policy.Order.{refreshed}

unfoldable pub holds : ℕ → List ℕ → Bool
holds p [] = false
holds p (a ∷ cache) = let rest = holds p cache in if p == a then true else rest

abbrev pub drop_oldest : List ℕ → List ℕ
drop_oldest [] = []
drop_oldest (a ∷ cache) = cache

-- The cache of `n` pages after an access: the page is the most recently used, and the least recently
-- used one makes room for it where that is needed.
abbrev pub accessed : ℕ → ℕ → List ℕ → List ℕ
accessed n p cache =
    if holds p cache
    then refreshed p cache
    else (if length cache == n then drop_oldest cache ++ (p ∷ []) else cache ++ (p ∷ []))

-- How many accesses of a trace find their page in the cache.
unfoldable pub cache_hits : ℕ → List (ℕ × Bool) → List ℕ → ℕ
cache_hits n [] cache = 0
cache_hits n ((vaddr, write) ∷ lines) cache =
    let rest = cache_hits n lines (accessed n (page_of vaddr) cache) in
    if holds (page_of vaddr) cache then rest + 1 else rest
