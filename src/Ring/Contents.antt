-- ===== src/Ring/Contents.antt =====
-- The bytes that a ring holds, oldest first, and its invariant.
use native.Mathlib.Decide.{dec_lt}
use native.Mathlib.Nat.{mod-eq_of_lt, mod-eq-sub-mod}
use linux_device_manager.Base.{
  ℕ, ◌+◌, ◌-◌, ◌%◌, ◌^◌, ◌≤◌, ◌<◌, ◌≡◌, arith, none, List, ◌++◌, length, take, drop, get_elem?, ltb,
  if◌then◌else◌, length-take, length-append, length-drop, get_elem?-take, get_elem?-drop,
  get_elem?-append,
}
use linux_device_manager.Ring.{Ring, space}

pub record IsRing (r : Ring) : Type 0 where
  pub array : length r.storage ≡ r.capacity
  pub positive : 0 < r.capacity
  pub addressable : r.capacity ≤ 2 ^ 63
  pub read_in : r.read_pos < r.capacity
  pub size_in : r.size ≤ r.capacity

-- The stored bytes run from `read_pos` to the end of the array and on from its beginning.
unfoldable pub contents : Ring → List ℕ
contents r = take r.size (drop r.read_pos r.storage ++ r.storage)

pub length-contents : (r : Ring) → IsRing r → length (contents r) ≡ r.size
unfolding contents
length-contents r v = omega (
  arith,
  v.array,
  v.read_in,
  v.size_in,
  length-take r.size (drop r.read_pos r.storage ++ r.storage),
  length-append (drop r.read_pos r.storage) r.storage,
  length-drop r.read_pos r.storage,
)

-- The byte at an index, by where it stands in the array.
abbrev pub slot : Ring → ℕ → ℕ
slot r i = if ltb (r.read_pos + i) r.capacity then r.read_pos + i else r.read_pos + i - r.capacity

pub get_elem?-contents :
    (r : Ring) (i : ℕ)
    → IsRing r
    → get_elem? (contents r) i ≡ (if ltb i r.size then get_elem? r.storage (slot r i) else none)
unfolding contents
get_elem?-contents r i v = ground (
  arith,
  v.array,
  v.read_in,
  v.size_in,
  get_elem?-take r.size (drop r.read_pos r.storage ++ r.storage) i,
  get_elem?-append (drop r.read_pos r.storage) r.storage i,
  get_elem?-drop r.read_pos r.storage i,
  length-drop r.read_pos r.storage,
)

-- `devmgr_ring_space` does not wrap: with the size it makes up the capacity.
pub space-eq : (r : Ring) → IsRing r → space r ≡ r.capacity - r.size
unfolding space
space-eq r v = omega (arith, v.addressable, v.size_in)

-- Where the byte `k` after the oldest one stands, as the code computes it.
pub position-eq :
    (r : Ring) (k : ℕ)
    → IsRing r
    → k ≤ r.capacity
    → (r.read_pos + k) % 2 ^ 64 % r.capacity ≡ slot r k
position-eq r k v h = elim (dec_lt (r.read_pos + k) r.capacity) [
  | yes p ↦ ground (arith, no_wrap, mod-eq_of_lt p)
  | no p ↦ ground (
    arith,
    no_wrap,
    mod-eq-sub-mod {n = r.read_pos + k} {m = r.capacity} (omega arith),
    mod-eq_of_lt {n = r.read_pos + k - r.capacity} {m = r.capacity} (omega (arith, v.read_in, h)),
  )
]
  where
    no_wrap : (r.read_pos + k) % 2 ^ 64 ≡ r.read_pos + k
    no_wrap = omega (arith, v.addressable, v.read_in, h)
