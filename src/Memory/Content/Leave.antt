-- ===== src/Memory/Content/Leave.antt =====
-- `swap_pageout` of A3/swap.c keeps what is in the swap file.
use csc_369_operating_system.Common.{
  ℕ, ◌*◌, List, ◌∷◌, Option, some, update, length, ◌≡◌, ◌≢◌, refl, sym, ap, arith, inl, inr,
  Option-cases, fun_ext,
}
use csc_369_operating_system.Memory.Bitmap.Bits.{Bitmap}
use csc_369_operating_system.Memory.Bitmap.Alloc.{IsValid}
use csc_369_operating_system.Memory.Machine.{Page, Device, Machine}
use csc_369_operating_system.Memory.PageTable.Swap.{simpagesize, swap_pageout, write_out}
use csc_369_operating_system.Memory.Policy.Queue.{Absent}
use csc_369_operating_system.Memory.Content.{Slots, IsReliable}
use csc_369_operating_system.Memory.Content.Place.{next_slot, offs-apart, placed_at-lt}

-- What a write of one page leaves in the swap file.
pub record Out {F : Type 0} (get : F → ℕ → Option Page) (swap_off : ℕ → Option ℕ) (file : F) (v : ℕ)
    (page : Page) (pages : List ℕ) (off : ℕ) (b : Bitmap) (file' : F) : Type 0 where
  pub placed : List ℕ
  pub slots : Slots (update swap_off v (some off)) b placed pages
  pub mine : get file' off ≡ some page
  pub others : (q o : ℕ) → q ≢ v → swap_off q ≡ some o → get file' o ≡ get file o

module _ {F P : Type 0} where
  write_out-some :
      (d : Device F) (get : F → ℕ → Option Page) (f off : ℕ) (m : Machine F P)
      → IsReliable d get
      → write_out d f off m
        ≡ (some off, record m { swapfile = (d.write m.swapfile off (m.physmem f)).0 })
  unfolding write_out
  write_out-some d get f off m reliable = rw (reliable.writes m.swapfile off (m.physmem f)) refl

  pub swap_pageout-Out :
      (d : Device F) (get : F → ℕ → Option Page) (f v : ℕ) (pages placed : List ℕ) (m : Machine F P)
      → IsReliable d get
      → IsValid m.swapmap
      → Slots (λ q. (m.ptes q).swap_off) m.swapmap placed pages
      → ¬ Absent v pages
      → (off : ℕ) × (b : Bitmap) × (file : F) × (swap_pageout d f (m.ptes v).swap_off m
          ≡ some (some off, record m { swapmap = b; swapfile = file }))
        × Out get (λ q. (m.ptes q).swap_off) m.swapfile v (m.physmem f) pages off b file
  unfolding swap_pageout
  swap_pageout-Out d get f v pages placed m reliable valid s there =
      let offs : ℕ → Option ℕ = λ q. (m.ptes q).swap_off in
      let page = m.physmem f in
      elim (Option-cases (m.ptes v).swap_off) [
        | inr (o, e) ↦
            let (i, at, place) = s.offs v o e in
            let same : update offs v (some o) ≡ offs = fun_ext λ q. ground (arith, e) in
            (
              o,
              m.swapmap,
              (d.write m.swapfile o page).0,
              rw (e, swap_pageout) (ap some (write_out-some d get f o m reliable)),
              record {
                placed = placed;
                slots = rw same s;
                mine = reliable.stores m.swapfile o page;
                others = λ q o' ne e'.
                    let (j, at', place') = s.offs q o' e' in
                    rw (place, place')
                      (reliable.keeps m.swapfile i j page
                        (offs-apart offs m.swapmap placed pages v q i j (λ h. ne (sym h)) at at'));
              },
            )
        | inl e ↦
            let (after, alloc, valid', s') = next_slot v s valid e there in
            let o = length placed * simpagesize in
            (
              o,
              after,
              (d.write m.swapfile o page).0,
              rw (e, alloc, swap_pageout)
                  (ap some (write_out-some d get f o (record m { swapmap = after }) reliable)),
              record {
                placed = v ∷ placed;
                slots = s';
                mine = reliable.stores m.swapfile o page;
                others = λ q o' ne e'.
                    let (j, at', place') = s.offs q o' e' in
                    rw place' (
                      reliable.keeps m.swapfile (length placed) j page
                        (λ same. omega (arith, placed_at-lt placed j q at', same)));
              },
            )
      ]
