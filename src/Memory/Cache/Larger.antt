-- ===== src/Memory/Cache/Larger.antt =====
-- With A3/lru.c more frames never make fewer hits.
use csc_369_operating_system.Common.{
  ℕ, zero, suc, ◌+◌, ◌^◌, ◌≤◌, Bool, true, false, List, [], ◌∷◌, some, if◌then◌else◌, ◌==◌, length,
  ◌≡◌, refl, sym, ap, ◌∙◌, arith, inl, inr, Bool-cases, dec_lt, subst, ◌++◌,
}
use csc_369_operating_system.Memory.Machine.{Page, Device, Machine}
use csc_369_operating_system.Memory.PageTable.Translate.{page_of}
use csc_369_operating_system.Memory.Replay.{IsTrace}
use csc_369_operating_system.Memory.Policy.Queue.{IsDistinct, append-IsDistinct}
use csc_369_operating_system.Memory.Policy.Recency.{
  remove, remove-Absent, Absent-remove, remove-IsDistinct,
}
use csc_369_operating_system.Memory.Policy.Lru.{Lru, lru}
use csc_369_operating_system.Memory.Policy.Order.{refreshed}
use csc_369_operating_system.Memory.Boot.{simulate, no_frames}
use csc_369_operating_system.Memory.Cache.{holds, accessed, cache_hits}
use csc_369_operating_system.Memory.Cache.Hits.{simulate-lru_hits}
use csc_369_operating_system.Memory.Cache.Recent.{
  lastn, lastn-all, lastn-append, holds-Absent, holds-lastn, lastn-move, lastn-drop, lastn-length,
}

count_more :
    (small large : Bool) (x y : ℕ)
    → x ≤ y
    → (small ≡ true → large ≡ true)
    → (if small then x + 1 else x) ≤ (if large then y + 1 else y)
count_more true large x y le more = ground (arith, le, more refl)
count_more false true x y le more = omega (arith, le)
count_more false false x y le more = le

-- The cache of `n` pages is what the last `n` elements of the order of all pages are.
accessed-lastn :
    (p n : ℕ) (s : List ℕ)
    → IsDistinct s
    → accessed (suc n) p (lastn (suc n) s) ≡ lastn (suc n) (refreshed p s)
accessed-lastn p n s distinct = elim (Bool-cases (holds p (lastn (suc n) s))) [
  | inl h ↦
      rw h (
        ap (λ l. l ++ (p ∷ [])) (lastn-move p n s distinct h) ∙ sym (lastn-append n p (remove p s)))
  | inr h ↦ elim (dec_lt n (length s)) [
    | yes many ↦
        let full : (length (lastn (suc n) s) == suc n) ≡ true =
          ground (arith, lastn-length (suc n) s (omega (arith, many))) in
        rw (h, full)
          (ap (λ l. l ++ (p ∷ [])) (lastn-drop p n s distinct h (omega (arith, many)))
            ∙ sym (lastn-append n p (remove p s)))
    | no few ↦
        let whole = lastn-all (suc n) s (omega (arith, few)) in
        let room : (length (lastn (suc n) s) == suc n) ≡ false =
          ground (arith, ap length whole, few) in
        let absent = holds-Absent p s (subst (λ l. holds p l ≡ false) whole h) in
        let same =
          whole
          ∙ sym (lastn-all n s (omega (arith, few)))
          ∙ ap (lastn n) (sym (remove-Absent p s absent)) in
        rw (h, room) (ap (λ l. l ++ (p ∷ [])) same ∙ sym (lastn-append n p (remove p s)))
  ]
]

-- From the caches of one order, the larger one hits at least as often.
cache_hits-lastn :
    (n k : ℕ) (lines : List (ℕ × Bool)) (s : List ℕ)
    → n ≤ k
    → IsDistinct s
    → cache_hits (suc n) lines (lastn (suc n) s) ≤ cache_hits (suc k) lines (lastn (suc k) s)
unfolding cache_hits
cache_hits-lastn n k [] s le distinct = omega arith
cache_hits-lastn n k ((vaddr, write) ∷ lines) s le distinct =
    let p = page_of vaddr in
    let next : IsDistinct (refreshed p s) =
      append-IsDistinct (remove p s) p (remove-IsDistinct p s distinct) (Absent-remove p s) in
    let rest = cache_hits-lastn n k lines (refreshed p s) le next in
    let rest' =
      subst
        (λ l.
          cache_hits (suc n) lines l
          ≤ cache_hits (suc k) lines (accessed (suc k) p (lastn (suc k) s)))
        (sym (accessed-lastn p n s distinct))
        (subst
          (λ l.
            cache_hits (suc n) lines (lastn (suc n) (refreshed p s)) ≤ cache_hits (suc k) lines l)
          (sym (accessed-lastn p k s distinct)) rest) in
    count_more (holds p (lastn (suc n) s)) (holds p (lastn (suc k) s)) _ _ rest'
      (holds-lastn p (suc n) (suc k) s (omega (arith, le)))

from_empty :
    (n k : ℕ) (lines : List (ℕ × Bool))
    → 1 ≤ n
    → n ≤ k
    → cache_hits n lines [] ≤ cache_hits k lines []
unfolding lastn IsDistinct
from_empty zero k lines some_n le = absurd (omega (arith, some_n))
from_empty (suc n) zero lines some_n le = absurd (omega (arith, le))
from_empty (suc n) (suc k) lines some_n le = cache_hits-lastn n k lines [] (omega (arith, le)) tt

-- With `lru`, from two to 2 ^ 20 frames, a swap space whose size does not overflow, and any trace of
-- addresses of 36 bits, the simulator counts at least as many hits and at most as many misses when it
-- is given more frames.
pub simulate_monotone :
    {F : Type 0} (d : Device F) (less more swapsize : ℕ) (memory : ℕ → Page) (file : F)
    (lines : List (ℕ × Bool))
    → 2 ≤ less
    → less ≤ more
    → more ≤ 2 ^ 20
    → swapsize + 32 ≤ 2 ^ 32
    → IsTrace lines
    → (m m' : Machine F Lru) × (simulate d lru less swapsize memory file no_frames lines ≡ some m)
      × (simulate d lru more swapsize memory file no_frames lines ≡ some m')
      × (m.hit_count ≤ m'.hit_count)
      × (m'.miss_count ≤ m.miss_count)
simulate_monotone d less more swapsize memory file lines several le small swap trace =
    let (m, e, hits, misses) =
      simulate-lru_hits d less swapsize memory file lines several (omega (arith, le, small)) swap
        trace in
    let (m', e', hits', misses') =
      simulate-lru_hits d more swapsize memory file lines (omega (arith, le, several)) small swap
        trace in
    let fewer = from_empty less more lines (omega (arith, several)) le in
    (m, m', e, e', omega (arith, hits, hits', fewer), omega (arith, misses, misses', fewer))
