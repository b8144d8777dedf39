-- ===== src/Crc.antt =====
-- src/common/crc32.c: the CRC of frames and firmware images, one bit at a time.
pub mod Detect
use Prim.Native.Nat.{bit_and, bit_xor}
use linux_device_manager.Base.{ℕ, zero, suc, ◌-◌, ◌/◌, ◌%◌, ◌^◌, List, [], ◌∷◌}
use linux_device_manager.Span.{Span, null, at}

-- `DEVMGR_CRC32_INIT` and `DEVMGR_CRC32_XOR_OUT`
abbrev pub init : ℕ
init = 0xffff_ffff

abbrev pub xor_out : ℕ
xor_out = 0xffff_ffff

abbrev pub polynomial : ℕ
polynomial = 0xedb8_8320

-- One round of the inner loop: the mask is `0U - (state & 1U)` in `uint32_t`.
pub shift_bit : ℕ → ℕ
shift_bit state =
    let mask = (2 ^ 32 - state % 2) % 2 ^ 32 in bit_xor (state / 2) (bit_and polynomial mask)

-- The inner loop with `n` rounds left.
pub shift_bits : ℕ → ℕ → ℕ
shift_bits zero state = state
shift_bits (suc n) state = shift_bits n (shift_bit state)

-- One round of the outer loop.
unfoldable pub add_byte : ℕ → ℕ → ℕ
unfolding shift_bit shift_bits
add_byte state byte = shift_bits 8 (bit_xor state byte)

-- The outer loop, over the bytes that are left.
unfoldable pub update_bytes : ℕ → List ℕ → ℕ
unfolding add_byte
update_bytes state [] = state
update_bytes state (x ∷ xs) = update_bytes (add_byte state x) xs

-- `devmgr_crc32_update`
unfoldable pub update : ℕ → Span → ℕ
unfolding update_bytes
update state (null n) = state
update state (at xs) = update_bytes state xs

-- `devmgr_crc32_finish`
unfoldable pub finish : ℕ → ℕ
finish state = bit_xor state xor_out

-- `devmgr_crc32`
unfoldable pub crc32 : Span → ℕ
unfolding update finish
crc32 span = finish (update init span)
