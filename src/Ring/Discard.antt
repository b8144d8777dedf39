-- ===== src/Ring/Discard.antt =====
-- `devmgr_ring_discard`, `devmgr_ring_read` and `devmgr_ring_reset` on the contents.
use Prim.Native.Nat.{min}
use native.Mathlib.Decide.{dec_lt, ℕ_discrete}
use native.Mathlib.Nat.{sub-zero}
use linux_device_manager.Base.{
  ℕ, ◌+◌, ◌-◌, ◌≤◌, ◌<◌, ◌≡◌, ◌≢◌, refl, sym, ap, ◌∙◌, arith, List, [], length, take, drop, ◌==◌,
  if◌then◌else◌, get_elem?-drop, get_elem?-out, list_ext,
}
use linux_device_manager.Ring.{Ring, discard, read, reset}
use linux_device_manager.Ring.Contents.{
  IsRing, contents, slot, get_elem?-contents, length-contents, position-eq,
}
use linux_device_manager.Ring.Peek.{peek_lem}

-- The ring after `count` bytes are gone.
advanced : Ring → ℕ → Ring
advanced r count = record r {
  read_pos = if r.size - count == 0 then 0 else slot r count;
  size = r.size - count;
}

slot-lt : (r : Ring) (k : ℕ) → IsRing r → k ≤ r.size → slot r k < r.capacity
slot-lt r k v h = ground (arith, v.read_in, v.size_in)

advanced-IsRing : (r : Ring) (count : ℕ) → IsRing r → count ≤ r.size → IsRing (advanced r count)
unfolding advanced
advanced-IsRing r count v h = record {
  array = v.array;
  positive = v.positive;
  addressable = v.addressable;
  read_in = ground (arith, slot-lt r count v h, v.positive);
  size_in = omega (arith, v.size_in);
}

capacity-advanced : (r : Ring) (count : ℕ) → (advanced r count).capacity ≡ r.capacity
unfolding advanced
capacity-advanced r count = refl

contents-advanced :
    (r : Ring) (count : ℕ)
    → IsRing r
    → count ≤ r.size
    → contents (advanced r count) ≡ drop count (contents r)
unfolding advanced
contents-advanced r count v h = list_ext _ _ λ i. ground (
  arith,
  get_elem?-contents (advanced r count) i (advanced-IsRing r count v h),
  get_elem?-drop count (contents r) i,
  get_elem?-contents r (count + i) v,
  v.read_in,
  v.size_in,
)

discard-eq :
    (r : Ring) (n : ℕ) → IsRing r → n ≢ 0 → discard r n ≡ (min n r.size, advanced r (min n r.size))
unfolding discard advanced
discard-eq r n v nz = ground (arith, position-eq r (min n r.size) v (omega (arith, v.size_in)))

discard-zero : (r : Ring) → discard r 0 ≡ (0, r)
unfolding discard
discard-zero r = refl

drop-min : (xs : List ℕ) (n : ℕ) → drop (min n (length xs)) xs ≡ drop n xs
drop-min xs n = list_ext _ _ λ i. elim (dec_lt n (length xs)) [
  | yes p ↦ ground (arith, get_elem?-drop (min n (length xs)) xs i, get_elem?-drop n xs i)
  | no p ↦ ground (
    arith,
    get_elem?-drop (min n (length xs)) xs i,
    get_elem?-drop n xs i,
    get_elem?-out xs (length xs + i) (omega arith),
    get_elem?-out xs (n + i) (omega arith),
  )
]

-- What one call of `devmgr_ring_discard` does: it drops up to `n` of the oldest bytes, returns
-- how many, and leaves a valid ring of the same capacity.
pub discard_lem :
    (r : Ring) (n : ℕ)
    → IsRing r
    → ((discard r n).0 ≡ min n r.size)
      × (contents (discard r n).1 ≡ drop n (contents r))
      × IsRing (discard r n).1
      × ((discard r n).1.capacity ≡ r.capacity)
discard_lem r n v = elim (ℕ_discrete n 0) [
  | yes z ↦ rw (z, discard-zero r) (omega arith, refl, v, refl)
  | no nz ↦
      let few : min n r.size ≤ r.size = omega arith in
      let kept : min n r.size ≡ min n (length (contents r)) = omega (arith, length-contents r v) in
      rw (discard-eq r n v nz) (
        refl,
        contents-advanced r (min n r.size) v few
            ∙ ap (λ (k : ℕ). drop k (contents r)) kept
            ∙ drop-min (contents r) n,
        advanced-IsRing r (min n r.size) v few,
        capacity-advanced r (min n r.size),
      )
]

-- `devmgr_ring_read` hands out up to `n` of the oldest bytes, in order, and leaves the rest.
pub read_lem :
    (r : Ring) (n : ℕ)
    → IsRing r
    → ((read r n).0 ≡ min n r.size)
      × ((read r n).1 ≡ take n (contents r))
      × (contents (read r n).2 ≡ drop n (contents r))
      × IsRing (read r n).2
unfolding read
read_lem r n v =
    let dropped = discard_lem r (min n r.size) v in
    rw (peek_lem r 0 n v, sub-zero)
      (
        refl,
        refl,
        dropped.1
            ∙ ap (λ (k : ℕ). drop (min n k) (contents r)) (sym (length-contents r v))
            ∙ drop-min (contents r) n,
        dropped.2,
      )

-- `devmgr_ring_reset` leaves an empty valid ring.
reset_lem : (r : Ring) → IsRing r → IsRing (reset r) × (contents (reset r) ≡ [])
unfolding reset contents
reset_lem r v = (omega (arith, v.array, v.positive, v.addressable), refl)
