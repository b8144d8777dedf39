-- ===== src/Ring.antt =====
-- src/common/ring_buffer.c: the byte ring that the stream parser reads from.
pub mod Contents
pub mod Peek
pub mod Write
pub mod Discard
use linux_device_manager.Base.{
  ℕ, ◌+◌, ◌-◌, ◌%◌, ◌^◌, Bool, Option, none, some, List, [], ◌∷◌, ◌++◌, ◌||◌, ltb, leb, ◌==◌,
  if◌then◌else◌, length, take, drop, memcpy, u64,
}
use linux_device_manager.Status.{Status, ok, invalid}
use linux_device_manager.Span.{Span, null, at}

-- `struct devmgr_ring_buffer`; `storage` is the caller's array.
pub record Ring : Type 0 where
  pub storage : List ℕ
  pub capacity : ℕ
  pub read_pos : ℕ
  pub size : ℕ

-- `minimum`
abbrev pub minimum : ℕ → ℕ → ℕ
minimum left right = if ltb left right then left else right

-- `devmgr_ring_init`; `none` is a null storage pointer. A refused call leaves the ring alone.
unfoldable pub init : Ring → Option (List ℕ) → ℕ → Status × Ring
init ring none capacity = (invalid, ring)
init ring (some storage) capacity =
    if capacity == 0
    then (invalid, ring)
    else (ok, record { storage = storage; capacity = capacity; read_pos = 0; size = 0 })

-- `devmgr_ring_reset`
unfoldable pub reset : Ring → Ring
reset ring = record ring { read_pos = 0; size = 0 }

-- `devmgr_ring_size`
abbrev pub ring_size : Ring → ℕ
ring_size ring = ring.size

-- `devmgr_ring_space`; the subtraction is on `size_t`.
unfoldable pub space : Ring → ℕ
space ring = u64 (2 ^ 64 + ring.capacity - ring.size)

-- `devmgr_ring_empty`
unfoldable pub empty : Ring → Bool
empty ring = ring_size ring == 0

-- `devmgr_ring_full`
unfoldable pub full : Ring → Bool
full ring = ring.size == ring.capacity

-- The two copies of `devmgr_ring_write`, of `count` bytes from `write_pos` on.
abbrev pub store : Ring → List ℕ → ℕ → ℕ → List ℕ
store ring xs count write_pos =
    let first = minimum count (ring.capacity - write_pos) in
    memcpy (memcpy ring.storage write_pos (take first xs)) 0 (take (count - first) (drop first xs))

-- `devmgr_ring_write`: the number of bytes taken, and the ring.
unfoldable pub write : Ring → Span → ℕ × Ring
write ring (null n) = (0, ring)
write ring (at xs) =
    let count = minimum (length xs) (space ring) in
    let write_pos = u64 (ring.read_pos + ring.size) % ring.capacity in
    if length xs == 0 then (0, ring) else (
      count,
      record ring { storage = store ring xs count write_pos; size = u64 (ring.size + count) },
    )

-- `devmgr_ring_peek`: the number of bytes copied, and those bytes.
unfoldable pub peek : Ring → ℕ → ℕ → ℕ × List ℕ
peek ring offset n =
    let count = minimum n (ring.size - offset) in
    let position = u64 (ring.read_pos + offset) % ring.capacity in
    let first = minimum count (ring.capacity - position) in
    if leb ring.size offset || n == 0
    then (0, [])
    else (count, take first (drop position ring.storage) ++ take (count - first) ring.storage)

-- `devmgr_ring_discard`: the number of bytes dropped, and the ring. `size -= count` cannot wrap,
-- since `count` is at most `size`.
unfoldable pub discard : Ring → ℕ → ℕ × Ring
discard ring n =
    let count = minimum n ring.size in
    let left = ring.size - count in
    let read_pos = u64 (ring.read_pos + count) % ring.capacity in
    if n == 0
    then (0, ring)
    else (count, record ring { read_pos = if left == 0 then 0 else read_pos; size = left })

-- `devmgr_ring_read`
unfoldable pub read : Ring → ℕ → ℕ × List ℕ × Ring
read ring n =
    let (count, bytes) = peek ring 0 n in
    let (dropped, ring') = discard ring count in (count, bytes, ring')
