-- ===== src/Ring/Write.antt =====
-- `devmgr_ring_write` appends to the contents.
use Prim.Native.Nat.{min}
use native.Mathlib.Decide.{dec_lt}
use linux_device_manager.Base.{
  ℕ, ◌+◌, ◌-◌, ◌≤◌, ◌<◌, ◌≡◌, ◌≢◌, refl, ◌∙◌, arith, List, [], ◌∷◌, ◌++◌, length, take, drop,
  take-nil, memcpy, get_elem?, ltb, leb, ◌&&◌, if◌then◌else◌, length-take, length-memcpy,
  append-nil, length-drop, get_elem?-take, get_elem?-drop, get_elem?-append, get_elem?-memcpy,
  list_ext, u64,
}
use linux_device_manager.Span.{at}
use linux_device_manager.Ring.{Ring, minimum, store, write}
use linux_device_manager.Ring.Contents.{
  IsRing, contents, slot, get_elem?-contents, length-contents, position-eq, space-eq,
}

-- The array after one copy of `n` bytes, and after the two copies.
get_elem?-copy :
    (dst xs : List ℕ) (from n j : ℕ)
    → n ≤ length xs
    → from + n ≤ length dst
    → get_elem? (memcpy dst from (take n xs)) j
      ≡ (if leb from j && ltb j (from + n) then get_elem? xs (j - from) else get_elem? dst j)
get_elem?-copy dst xs from n j h k = ground (
  arith,
  get_elem?-memcpy dst from (take n xs) j,
  length-take n xs,
  get_elem?-take n xs (j - from),
)

get_elem?-copies :
    (dst xs : List ℕ) (from first count j : ℕ)
    → first ≤ count
    → count ≤ length xs
    → from + first ≤ length dst
    → count - first ≤ length dst
    → get_elem?
        (memcpy (memcpy dst from (take first xs)) 0 (take (count - first) (drop first xs)))
        j
      ≡ (if ltb j (count - first)
          then get_elem? xs (first + j)
          else if leb from j && ltb j (from + first)
          then get_elem? xs (j - from)
          else get_elem? dst j)
get_elem?-copies dst xs from first count j h long p q = ground (
  arith,
  get_elem?-copy (memcpy dst from (take first xs)) (drop first xs) 0 (count - first) j
      (omega (arith, length-drop first xs)) (omega (arith, length-memcpy dst from (take first xs))),
  get_elem?-copy dst xs from first j (omega arith) p,
  get_elem?-drop first xs j,
)

get_elem?-store :
    (r : Ring) (xs : List ℕ) (count i : ℕ)
    → IsRing r
    → count ≤ length xs
    → count ≤ r.capacity - r.size
    → i < r.size + count
    → get_elem? (store r xs count (slot r r.size)) (slot r i)
      ≡ (if ltb i r.size then get_elem? r.storage (slot r i) else get_elem? xs (i - r.size))
get_elem?-store r xs count i v long room h =
    let wp = slot r r.size in
    let first = minimum count (r.capacity - wp) in
    ground (
      arith,
      v.array,
      v.read_in,
      v.size_in,
      get_elem?-copies r.storage xs wp first count (slot r i) (ground arith) long (ground arith)
          (ground arith),
    )

-- The ring with the first `count` of the bytes `xs` appended.
written : Ring → List ℕ → ℕ → Ring
written r xs count = record r { storage = store r xs count (slot r r.size); size = r.size + count }

written-IsRing :
    (r : Ring) (xs : List ℕ) (count : ℕ)
    → IsRing r
    → count ≤ r.capacity - r.size
    → IsRing (written r xs count)
unfolding written
written-IsRing r xs count v room =
    let wp = slot r r.size in
    let first = minimum count (r.capacity - wp) in
    record {
      array =
          length-memcpy (memcpy r.storage wp (take first xs)) 0
            (take (count - first) (drop first xs))
          ∙ length-memcpy r.storage wp (take first xs)
          ∙ v.array;
      positive = v.positive;
      addressable = v.addressable;
      read_in = v.read_in;
      size_in = omega (arith, v.size_in);
    }

capacity-written : (r : Ring) (xs : List ℕ) (count : ℕ) → (written r xs count).capacity ≡ r.capacity
unfolding written
capacity-written r xs count = refl

contents-written :
    (r : Ring) (xs : List ℕ) (count : ℕ)
    → IsRing r
    → count ≤ length xs
    → count ≤ r.capacity - r.size
    → contents (written r xs count) ≡ contents r ++ take count xs
unfolding written
contents-written r xs count v long room = list_ext _ _ λ i. elim (dec_lt i (r.size + count)) [
  | yes p ↦ ground (
    arith,
    get_elem?-contents (written r xs count) i (written-IsRing r xs count v room),
    get_elem?-store r xs count i v long room p,
    get_elem?-append (contents r) (take count xs) i,
    get_elem?-take count xs (i - r.size),
    get_elem?-contents r i v,
    length-contents r v,
  )
  | no p ↦ ground (
    arith,
    get_elem?-contents (written r xs count) i (written-IsRing r xs count v room),
    get_elem?-append (contents r) (take count xs) i,
    get_elem?-take count xs (i - r.size),
    length-contents r v,
  )
]

write-eq :
    (r : Ring) (xs : List ℕ)
    → IsRing r
    → length xs ≢ 0
    → let count = min (length xs) (r.capacity - r.size) in
      write r (at xs) ≡ (count, written r xs count)
unfolding write written
write-eq r xs v nz =
    let count = min (length xs) (r.capacity - r.size) in
    let fits : u64 (r.size + count) ≡ r.size + count = omega (arith, v.addressable, v.size_in) in
    let least : minimum (length xs) (r.capacity - r.size) ≡ count = ground arith in
    rw (space-eq r v, position-eq r r.size v v.size_in, least, fits) (ground arith)

-- What one call of `devmgr_ring_write` does: it takes as many bytes as there is room for,
-- appends exactly those in order behind the stored ones, and leaves a valid ring of the same
-- capacity.
pub write_lem :
    (r : Ring) (xs : List ℕ)
    → IsRing r
    → let count = min (length xs) (r.capacity - r.size) in
      ((write r (at xs)).0 ≡ count)
      × (contents (write r (at xs)).1 ≡ contents r ++ take count xs)
      × IsRing (write r (at xs)).1
      × ((write r (at xs)).1.capacity ≡ r.capacity)
unfolding write
write_lem r [] v = (omega arith, rw (take-nil, append-nil) refl, v, refl)
write_lem r (x ∷ xs) v =
    let count = min (length (x ∷ xs)) (r.capacity - r.size) in
    let room : count ≤ r.capacity - r.size = omega arith in
    rw (write-eq r (x ∷ xs) v (omega arith)) (
      refl,
      contents-written r (x ∷ xs) count v (omega arith) room,
      written-IsRing r (x ∷ xs) count v room,
      capacity-written r (x ∷ xs) count,
    )
