-- ===== src/Base/Xor.antt =====
-- Exclusive or at variables: its lowest digit, its bounds and its cancellation.
use Prim.Native.Nat.{ℕ, zero, suc, ◌+◌, ◌*◌, ◌/◌, ◌%◌, ◌^◌, ◌≤◌, ◌<◌}
use Prim.Native.Nat.{bit_xor, bit_xor-bitwise, digits, differ}
use mathlib.Core.Path.{◌≡◌, refl, sym, ap, ◌∙◌}
use native.Mathlib.Nat.{pow-suc}
use native.Mathlib.Omega.{arith}

-- The result does not depend on how many digits are allowed for, if they are enough.
abbrev xor_digits : ℕ → ℕ → ℕ → ℕ
xor_digits count a b = digits (λ y. y) differ count a b

xor_digits_enough :
    (more less a b : ℕ) → a ≤ less → a ≤ more → xor_digits more a b ≡ xor_digits less a b
xor_digits_enough zero zero zero b p q = refl
xor_digits_enough zero (suc less) zero b p q = refl
xor_digits_enough (suc more) zero zero b p q = refl
xor_digits_enough (suc more) (suc less) zero b p q = refl
xor_digits_enough more zero (suc a) b p q = absurd (omega arith)
xor_digits_enough zero (suc less) (suc a) b p q = absurd (omega arith)
xor_digits_enough (suc more) (suc less) (suc a) b p q =
    let half = xor_digits_enough more less (suc a / 2) (b / 2) (omega arith) (omega arith) in
    omega (arith, half)

differ_lem : (x y : ℕ) → x < 2 → y < 2 → differ x y ≡ (x + y) % 2
differ_lem zero zero p q = refl
differ_lem zero (suc zero) p q = refl
differ_lem (suc zero) zero p q = refl
differ_lem (suc zero) (suc zero) p q = refl
differ_lem zero (suc (suc y)) p q = absurd (omega arith)
differ_lem (suc zero) (suc (suc y)) p q = absurd (omega arith)
differ_lem (suc (suc x)) y p q = absurd (omega arith)

pub zero-bit_xor : (b : ℕ) → bit_xor 0 b ≡ b
zero-bit_xor b = bit_xor-bitwise 0 b

bit_xor_step : (a b : ℕ) → bit_xor a b ≡ bit_xor (a / 2) (b / 2) * 2 + (a + b) % 2
bit_xor_step zero b = omega (arith, zero-bit_xor b, zero-bit_xor (b / 2))
bit_xor_step (suc a) b = omega (
  arith,
  bit_xor-bitwise (suc a) b,
  bit_xor-bitwise (suc a / 2) (b / 2),
  xor_digits_enough a (suc a / 2) (suc a / 2) (b / 2) (omega arith) (omega arith),
  differ_lem (suc a % 2) (b % 2) (omega arith) (omega arith),
)

-- The exclusive or of two words of `k` bits has `k` bits.
pub bit_xor-lt : (k a b : ℕ) → a < 2 ^ k → b < 2 ^ k → bit_xor a b < 2 ^ k
bit_xor-lt zero a b p q =
    let a0 : a ≡ 0 = omega arith in let b0 : b ≡ 0 = omega arith in rw (a0, b0) (omega arith)
bit_xor-lt (suc k) a b p q = omega (
  arith,
  bit_xor_step a b,
  pow-suc 2 k,
  bit_xor-lt k (a / 2) (b / 2) (omega (arith, pow-suc 2 k)) (omega (arith, pow-suc 2 k)),
)

-- The top bit of `b` stays where `a` has none.
pub bit_xor_top : (k a b : ℕ) → a < 2 ^ k → 2 ^ k ≤ b → b < 2 ^ suc k → 2 ^ k ≤ bit_xor a b
bit_xor_top zero a b p q r =
    let a0 : a ≡ 0 = omega arith in
    let b1 : b ≡ 1 = omega (arith, pow-suc 2 0) in rw (a0, b1) (omega arith)
bit_xor_top (suc k) a b p q r = omega (
  arith,
  bit_xor_step a b,
  pow-suc 2 k,
  pow-suc 2 (suc k),
  bit_xor_top k (a / 2) (b / 2) (omega (arith, pow-suc 2 k)) (omega (arith, pow-suc 2 k))
      (omega (arith, pow-suc 2 k, pow-suc 2 (suc k))),
)

-- Both go from the halves to the whole; `n` bounds the numbers.
cancel_upto : (n a b : ℕ) → a ≤ n → b ≤ n → bit_xor (bit_xor a b) b ≡ a
cancel_upto zero a b p q =
    let a0 : a ≡ 0 = omega arith in let b0 : b ≡ 0 = omega arith in rw (a0, b0) refl
cancel_upto (suc n) a b p q =
    let half : bit_xor a b / 2 ≡ bit_xor (a / 2) (b / 2) = omega (arith, bit_xor_step a b) in
    omega (
      arith,
      bit_xor_step a b,
      bit_xor_step (bit_xor a b) b,
      ap (λ (h : ℕ). bit_xor h (b / 2)) half,
      cancel_upto n (a / 2) (b / 2) (omega arith) (omega arith),
    )

swap_upto : (n a b : ℕ) → a ≤ n → b ≤ n → bit_xor a b ≡ bit_xor b a
swap_upto zero a b p q =
    let a0 : a ≡ 0 = omega arith in let b0 : b ≡ 0 = omega arith in rw (a0, b0) refl
swap_upto (suc n) a b p q = omega (
  arith,
  bit_xor_step a b,
  bit_xor_step b a,
  swap_upto n (a / 2) (b / 2) (omega arith) (omega arith),
)

-- A second exclusive or with the same number undoes the first.
bit_xor_cancel : (a b : ℕ) → bit_xor (bit_xor a b) b ≡ a
bit_xor_cancel a b = cancel_upto (a + b) a b (omega arith) (omega arith)

pub bit_xor_comm : (a b : ℕ) → bit_xor a b ≡ bit_xor b a
bit_xor_comm a b = swap_upto (a + b) a b (omega arith) (omega arith)

-- So exclusive or is injective on either side.
pub bit_xor_left_inj : (a b c : ℕ) → bit_xor a c ≡ bit_xor b c → a ≡ b
bit_xor_left_inj a b c e =
    sym (bit_xor_cancel a c) ∙ ap (λ (x : ℕ). bit_xor x c) e ∙ bit_xor_cancel b c

pub bit_xor_right_inj : (a b c : ℕ) → bit_xor c a ≡ bit_xor c b → a ≡ b
bit_xor_right_inj a b c e = bit_xor_left_inj a b c (bit_xor_comm a c ∙ e ∙ bit_xor_comm c b)
