-- ===== src/Base/CStrings.antt =====
-- Zero-terminated strings in arrays of bytes.
use Prim.Native.Nat.{ℕ, zero, suc, ◌+◌, ◌≤◌, ◌<◌}
use mathlib.Core.Path.{◌≡◌, refl, sym, ap, ◌∙◌}
use mathlib.Core.Bool.{Bool, true, false, ◌&&◌}
use mathlib.Core.List.{List, [], ◌∷◌, ◌++◌}
use native.Mathlib.Omega.{arith}
use linux_device_manager.Base.Tests.{◌==◌, if◌then◌else◌}
use linux_device_manager.Base.Lists.{
  length, take, drop, replicate, overwrite, length-take, take-overwrite, overwrite-eq-append,
}

-- `strlen`: the bytes before the first zero byte, or all of them.
unfoldable pub strlen : List ℕ → ℕ
strlen [] = 0
strlen (c ∷ cs) = if c == 0 then 0 else suc (strlen cs)

-- `memcmp(left, right, n) == 0` on arrays of n bytes.
abbrev pub equal_bytes : List ℕ → List ℕ → Bool
equal_bytes [] [] = true
equal_bytes [] (y ∷ ys) = false
equal_bytes (x ∷ xs) [] = false
equal_bytes (x ∷ xs) (y ∷ ys) = (x == y) && equal_bytes xs ys

-- `strcmp(left, right) == 0`
abbrev pub equal_strings : List ℕ → List ℕ → Bool
equal_strings left right = equal_bytes (take (strlen left) left) (take (strlen right) right)

strlen-le : (cs : List ℕ) → strlen cs ≤ length cs
unfolding strlen
strlen-le [] = omega arith
strlen-le (c ∷ cs) = ground (arith, strlen-le cs)

strlen-nil : strlen [] ≡ 0
unfolding strlen
strlen-nil = refl

strlen-zero : (cs : List ℕ) → strlen (0 ∷ cs) ≡ 0
unfolding strlen
strlen-zero cs = refl

strlen-cons : (c : ℕ) (cs : List ℕ) → strlen (suc c ∷ cs) ≡ suc (strlen cs)
unfolding strlen
strlen-cons c cs = ground arith

-- A string copied with its terminator over an array of zero bytes that it fits keeps its length.
pub strlen-stored :
    (m : ℕ) (cs : List ℕ)
    → strlen cs < m
    → strlen (overwrite (replicate m 0) (take (strlen cs + 1) cs)) ≡ strlen cs
unfolding overwrite
strlen-stored zero cs h = absurd (omega arith)
strlen-stored (suc m) [] h = rw (strlen-nil, strlen-zero) refl
strlen-stored (suc m) (zero ∷ cs) h = rw (strlen-zero, strlen-zero) refl
strlen-stored (suc m) (suc c ∷ cs) h =
    let next : strlen (suc c ∷ cs) + 1 ≡ suc (strlen cs + 1) = omega (arith, strlen-cons c cs) in
    rw (next, strlen-cons c cs, strlen-cons)
      (ap suc (strlen-stored m cs (omega (arith, strlen-cons c cs))))

-- What follows a string's terminator does not matter.
pub strlen-append : (cs ds : List ℕ) → strlen cs < length cs → strlen (cs ++ ds) ≡ strlen cs
strlen-append [] ds h = absurd (omega arith)
strlen-append (zero ∷ cs) ds h = strlen-zero (cs ++ ds) ∙ sym (strlen-zero cs)
strlen-append (suc c ∷ cs) ds h =
    rw (strlen-cons c (cs ++ ds), strlen-cons c cs)
      (ap suc (strlen-append cs ds (omega (arith, strlen-cons c cs))))

pub strlen-take : (cs : List ℕ) → strlen (take (strlen cs + 1) cs) ≡ strlen cs
strlen-take [] = rw strlen-nil (rw strlen-nil refl)
strlen-take (zero ∷ cs) = rw (strlen-zero, strlen-zero) refl
strlen-take (suc c ∷ cs) =
    let next : strlen (suc c ∷ cs) + 1 ≡ suc (strlen cs + 1) = omega (arith, strlen-cons c cs) in
    rw (next, strlen-cons c cs, strlen-cons) (ap suc (strlen-take cs))

-- A string copied with its terminator over an array that it fits.
pub stored_text :
    (old cs : List ℕ)
    → strlen cs < length cs
    → strlen cs < length old
    → let text = take (strlen cs + 1) cs in
      (strlen (overwrite old text) ≡ strlen cs) × (take (strlen cs + 1) (overwrite old text) ≡ text)
stored_text old cs ended fits =
    let text = take (strlen cs + 1) cs in
    let size : length text ≡ strlen cs + 1 = omega (arith, length-take (strlen cs + 1) cs) in
    (
      ap strlen (overwrite-eq-append old text (omega arith))
          ∙ strlen-append text (drop (length text) old) (omega (arith, strlen-take cs))
          ∙ strlen-take cs,
      take-overwrite old text (strlen cs + 1) (sym size) (omega arith),
    )
