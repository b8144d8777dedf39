-- ===== src/Base/Words.antt =====
-- Fixed-width words: casts, wrapping increments, and `int32_t` as a bit pattern.
use Prim.Native.Nat.{ℕ, ◌-◌, ◌%◌, ◌^◌, ◌<◌}
use mathlib.Core.Path.{◌≡◌}
use native.Mathlib.Omega.{arith}
use linux_device_manager.Base.Tests.{ltb, if◌then◌else◌}

-- The casts `(uint8_t)`, `(uint16_t)`, `(uint32_t)` and the wrap of `uint64_t` and `size_t`.
abbrev pub u8 : ℕ → ℕ
u8 n = n % 2 ^ 8

abbrev pub u16 : ℕ → ℕ
u16 n = n % 2 ^ 16

abbrev pub u32 : ℕ → ℕ
u32 n = n % 2 ^ 32

abbrev pub u64 : ℕ → ℕ
u64 n = n % 2 ^ 64

-- Signed integers; `negsuc n` is -(n + 1).
pub data ℤ : Type 0 where
  pos : ℕ → ℤ
  negsuc : ℕ → ℤ

-- `(uint32_t)` of a signed value, and `(int32_t)` of an unsigned one.
abbrev pub u32_of_int : ℤ → ℕ
u32_of_int (pos n) = n % 2 ^ 32
u32_of_int (negsuc n) = 2 ^ 32 - 1 - n % 2 ^ 32

abbrev pub int_of_u32 : ℕ → ℤ
int_of_u32 w = if ltb w (2 ^ 31) then pos w else negsuc (2 ^ 32 - 1 - w)

-- The values of `int32_t`.
abbrev pub IsInt32 : ℤ → Type 0
IsInt32 (pos n) = n < 2 ^ 31
IsInt32 (negsuc n) = n < 2 ^ 31

pub int_of_u32-u32_of_int : (z : ℤ) → IsInt32 z → int_of_u32 (u32_of_int z) ≡ z
int_of_u32-u32_of_int (pos n) h = ground arith
int_of_u32-u32_of_int (negsuc n) h = ground arith

pub u32_of_int-lt : (z : ℤ) → u32_of_int z < 2 ^ 32
u32_of_int-lt (pos n) = omega arith
u32_of_int-lt (negsuc n) = omega arith
