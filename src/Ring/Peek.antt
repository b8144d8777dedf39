-- ===== src/Ring/Peek.antt =====
-- `devmgr_ring_peek` copies a segment of the contents.
use Prim.Native.Nat.{min}
use native.Mathlib.Decide.{dec_lt, ℕ_discrete}
use linux_device_manager.Base.{
  ℕ, zero, suc, ◌+◌, ◌-◌, ◌≤◌, ◌<◌, ◌≡◌, refl, ap, arith, none, List, [], ◌++◌, length, take, drop,
  take-nil, get_elem?, ltb, if◌then◌else◌, length-take, length-drop, get_elem?-take, get_elem?-drop,
  get_elem?-append, get_elem?-out, list_ext,
}
use linux_device_manager.Ring.{Ring, minimum, peek}
use linux_device_manager.Ring.Contents.{
  IsRing, contents, slot, get_elem?-contents, length-contents, position-eq,
}

-- The copied bytes, before the index arithmetic of the code is put in.
abbrev segment : Ring → ℕ → ℕ → List ℕ
segment r position count =
    let first = minimum count (r.capacity - position) in
    take first (drop position r.storage) ++ take (count - first) r.storage

get_elem?-segment :
    (r : Ring) (offset count i : ℕ)
    → IsRing r
    → offset < r.size
    → count ≤ r.size - offset
    → get_elem? (segment r (slot r offset) count) i
      ≡ (if ltb i count then get_elem? r.storage (slot r (offset + i)) else none)
get_elem?-segment r offset count i v h k =
    let position = slot r offset in
    let first = minimum count (r.capacity - position) in
    ground (
      arith,
      v.array,
      v.read_in,
      v.size_in,
      get_elem?-append (take first (drop position r.storage)) (take (count - first) r.storage) i,
      get_elem?-take first (drop position r.storage) i,
      get_elem?-drop position r.storage i,
      get_elem?-take (count - first) r.storage (i - first),
      length-take first (drop position r.storage),
      length-drop position r.storage,
    )

segment-eq :
    (r : Ring) (offset n : ℕ)
    → IsRing r
    → offset < r.size
    → segment r (slot r offset) (minimum n (r.size - offset)) ≡ take n (drop offset (contents r))
segment-eq r offset n v h = list_ext _ _ λ i. ground (
  arith,
  get_elem?-segment r offset (minimum n (r.size - offset)) i v h (ground arith),
  get_elem?-take n (drop offset (contents r)) i,
  get_elem?-drop offset (contents r) i,
  get_elem?-contents r (offset + i) v,
)

drop-all : (xs : List ℕ) (n : ℕ) → length xs ≤ n → drop n xs ≡ []
drop-all xs n h =
    list_ext _ _ λ i. ground (arith, get_elem?-drop n xs i, get_elem?-out xs (n + i) (omega arith))

take-zero : (xs : List ℕ) (n : ℕ) → n ≡ 0 → take n xs ≡ []
take-zero xs zero h = refl
take-zero xs (suc n) h = absurd (omega arith)

-- `devmgr_ring_peek` copies the stored bytes from `offset` on, up to `n` of them in order, and
-- returns their number.
pub peek_lem :
    (r : Ring) (offset n : ℕ)
    → IsRing r
    → peek r offset n ≡ (min n (r.size - offset), take n (drop offset (contents r)))
unfolding peek
peek_lem r offset n v = elim (dec_lt offset r.size) [
  | no p ↦
      let gone : drop offset (contents r) ≡ [] =
        drop-all (contents r) offset (omega (arith, length-contents r v)) in
      ground (arith, gone, take-nil {A = ℕ} n, ap (take n) gone)
  | yes p ↦ elim (ℕ_discrete n 0) [
    | yes z ↦ ground (arith, take-zero (drop offset (contents r)) n z)
    | no nz ↦
        rw (position-eq r offset v (omega (arith, v.size_in)), segment-eq r offset n v p)
          (ground arith)
  ]
]
