-- ===== src/Base/Copies.antt =====
-- Bytes that are copied behind a prefix of an array continue it.
use Prim.Native.Nat.{ℕ, zero, suc, ◌+◌, ◌-◌, ◌≤◌, ◌<◌}
use mathlib.Core.Path.{◌≡◌, refl, sym, ap, ◌∙◌}
use mathlib.Core.List.{List, [], ◌∷◌, ◌++◌}
use native.Mathlib.Omega.{arith}
use linux_device_manager.Base.Lists.{length, take, drop, get_or, memcpy, overwrite, take-overwrite}

module _ {ℓ} {A : Type ℓ} where
  pub take-memcpy :
      (dst : List A) (i m : ℕ) (src : List A)
      → m ≡ i + length src
      → m ≤ length dst
      → take m (memcpy dst i src) ≡ take i dst ++ src
  unfolding memcpy
  take-memcpy dst zero m src e h = take-overwrite dst src m (omega arith) (omega arith)
  take-memcpy dst (suc i) zero src e h = absurd (omega arith)
  take-memcpy [] (suc i) (suc m) src e h = absurd (omega arith)
  take-memcpy (d ∷ dst) (suc i) (suc m) src e h =
      ap (λ l. d ∷ l) (take-memcpy dst i m src (omega arith) (omega arith))

  pub take-append_drop :
      (i n m : ℕ) (xs : List A) → m ≡ i + n → take i xs ++ take n (drop i xs) ≡ take m xs
  take-append_drop zero n m xs e = ap (λ (k : ℕ). take k xs) (omega arith)
  take-append_drop (suc i) n zero xs e = absurd (omega arith)
  take-append_drop (suc i) zero (suc m) [] e = refl
  take-append_drop (suc i) (suc n) (suc m) [] e = refl
  take-append_drop (suc i) n (suc m) (x ∷ xs) e =
      ap (λ l. x ∷ l) (take-append_drop i n m xs (omega arith))

  -- What stands before the bytes that are copied stays.
  pub get_or-memcpy :
      (dst : List A) (i j : ℕ) (src : List A) (a : A)
      → j < i
      → get_or (memcpy dst i src) j a ≡ get_or dst j a
  unfolding memcpy
  get_or-memcpy dst zero j src a h = absurd (omega arith)
  get_or-memcpy [] (suc i) j src a h = refl
  get_or-memcpy (d ∷ dst) (suc i) zero src a h = refl
  get_or-memcpy (d ∷ dst) (suc i) (suc j) src a h = get_or-memcpy dst i j src a (omega arith)

  memcpy-nil : (i : ℕ) (src : List A) → memcpy [] i src ≡ []
  unfolding memcpy overwrite
  memcpy-nil zero src = refl
  memcpy-nil (suc i) src = refl

  pub drop-memcpy :
      (n : ℕ) (dst : List A) (i : ℕ) (src : List A)
      → n ≤ i
      → drop n (memcpy dst i src) ≡ memcpy (drop n dst) (i - n) src
  unfolding memcpy
  drop-memcpy zero dst i src h = ap (λ (k : ℕ). memcpy dst k src) (omega arith)
  drop-memcpy (suc n) dst zero src h = absurd (omega arith)
  drop-memcpy (suc n) [] (suc i) src h = sym (memcpy-nil (suc i - suc n) src)
  drop-memcpy (suc n) (d ∷ dst) (suc i) src h =
      drop-memcpy n dst i src (omega arith)
      ∙ ap (λ (k : ℕ). memcpy (drop n dst) k src) (omega arith)
