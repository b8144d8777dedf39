-- ===== src/Base/Or.antt =====
-- Inclusive or at variables: setting the same bits again changes nothing.
use Prim.Native.Nat.{ℕ, zero, suc, ◌+◌, ◌*◌, ◌/◌, ◌%◌, ◌≤◌, max}
use Prim.Native.Nat.{bit_or, bit_or-bitwise, digits}
use mathlib.Core.Path.{◌≡◌, refl, sym, ap, ◌∙◌}
use native.Mathlib.Omega.{arith}

-- The result does not depend on how many digits are allowed for, if they are enough.
abbrev or_digits : ℕ → ℕ → ℕ → ℕ
or_digits count a b = digits (λ y. y) max count a b

or_digits_enough :
    (more less a b : ℕ) → a ≤ less → a ≤ more → or_digits more a b ≡ or_digits less a b
or_digits_enough zero zero zero b p q = refl
or_digits_enough zero (suc less) zero b p q = refl
or_digits_enough (suc more) zero zero b p q = refl
or_digits_enough (suc more) (suc less) zero b p q = refl
or_digits_enough more zero (suc a) b p q = absurd (omega arith)
or_digits_enough zero (suc less) (suc a) b p q = absurd (omega arith)
or_digits_enough (suc more) (suc less) (suc a) b p q =
    ap (λ (half : ℕ). half * 2 + max (suc a % 2) (b % 2))
      (or_digits_enough more less (suc a / 2) (b / 2) (omega arith) (omega arith))

zero-bit_or : (b : ℕ) → bit_or 0 b ≡ b
zero-bit_or b = bit_or-bitwise 0 b

max_same : (x : ℕ) → max x x ≡ x
max_same x = omega arith

bit_or_step : (a b : ℕ) → bit_or a b ≡ bit_or (a / 2) (b / 2) * 2 + max (a % 2) (b % 2)
bit_or_step zero b = omega (arith, zero-bit_or b, zero-bit_or (b / 2))
bit_or_step (suc a) b =
    bit_or-bitwise (suc a) b
    ∙ ap (λ (half : ℕ). half * 2 + max (suc a % 2) (b % 2))
        (or_digits_enough a (suc a / 2) (suc a / 2) (b / 2) (omega arith) (omega arith)
          ∙ sym (bit_or-bitwise (suc a / 2) (b / 2)))

bit_or_same : (k b : ℕ) → b ≤ k → bit_or b b ≡ b
bit_or_same k zero p = zero-bit_or 0
bit_or_same zero (suc b) p = absurd (omega arith)
bit_or_same (suc k) (suc b) p =
    omega (arith, bit_or_step (suc b) (suc b), bit_or_same k (suc b / 2) (omega arith))

twice_below : (k a b : ℕ) → a ≤ k → bit_or (bit_or a b) b ≡ bit_or a b
twice_below k zero b p = rw (zero-bit_or b) (bit_or_same b b (omega arith))
twice_below zero (suc a) b p = absurd (omega arith)
twice_below (suc k) (suc a) b p =
    let x = bit_or (suc a) b in
    let half = bit_or (suc a / 2) (b / 2) in
    let once : x ≡ half * 2 + max (suc a % 2) (b % 2) = bit_or_step (suc a) b in
    let quotient : x / 2 ≡ half = omega (arith, once) in
    let again : bit_or (x / 2) (b / 2) ≡ half =
      ap (λ (n : ℕ). bit_or n (b / 2)) quotient ∙ twice_below k (suc a / 2) (b / 2) (omega arith) in
    omega (arith, once, again, bit_or_step x b)

pub bit_or_twice : (a b : ℕ) → bit_or (bit_or a b) b ≡ bit_or a b
bit_or_twice a b = twice_below a a b (omega arith)
