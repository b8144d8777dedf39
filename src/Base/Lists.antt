-- ===== src/Base/Lists.antt =====
-- Lists measured and indexed by native numbers, and C's memory operations on them.
use Prim.Native.Nat.{ℕ, zero, suc, ◌+◌, ◌-◌, ◌≤◌, min}
use mathlib.Core.Path.{◌≡◌, refl, ap}
use mathlib.Core.List.{List, [], ◌∷◌, ◌++◌}
use mathlib.Core.Option.{Option, none, some}
use native.Mathlib.Omega.{arith}

module _ {ℓ} {A : Type ℓ} where
  abbrev pub length : List A → ℕ
  length [] = 0
  length (x ∷ xs) = suc (length xs)

  abbrev pub get_elem? : List A → ℕ → Option A
  get_elem? [] i = none
  get_elem? (x ∷ xs) zero = some x
  get_elem? (x ∷ xs) (suc i) = get_elem? xs i

  abbrev pub get_or : List A → ℕ → A → A
  get_or [] i d = d
  get_or (x ∷ xs) zero d = x
  get_or (x ∷ xs) (suc i) d = get_or xs i d

  abbrev pub take : ℕ → List A → List A
  take zero xs = []
  take (suc n) [] = []
  take (suc n) (x ∷ xs) = x ∷ take n xs

  abbrev pub drop : ℕ → List A → List A
  drop zero xs = xs
  drop (suc n) [] = []
  drop (suc n) (x ∷ xs) = drop n xs

  abbrev pub replicate : ℕ → A → List A
  replicate zero a = []
  replicate (suc n) a = a ∷ replicate n a

  -- A predicate on every element.
  abbrev pub All {κ} : (A → Type κ) → List A → Type κ
  All P [] = Unit
  All P (x ∷ xs) = P x × All P xs

  -- The array `dst` with `src` copied over its beginning; what does not fit is not written.
  unfoldable pub overwrite : List A → List A → List A
  overwrite [] src = []
  overwrite (d ∷ dst) [] = d ∷ dst
  overwrite (d ∷ dst) (s ∷ src) = s ∷ overwrite dst src

  -- `memcpy(dst + at, src, …)`.
  unfoldable pub memcpy : List A → ℕ → List A → List A
  memcpy dst zero src = overwrite dst src
  memcpy [] (suc at) src = []
  memcpy (d ∷ dst) (suc at) src = d ∷ memcpy dst at src

module _ {ℓ} {A : Type ℓ} where
  pub length-append : (xs ys : List A) → length (xs ++ ys) ≡ length xs + length ys
  length-append [] ys = omega arith
  length-append (x ∷ xs) ys = omega (arith, length-append xs ys)

  pub length-take : (n : ℕ) (xs : List A) → length (take n xs) ≡ min n (length xs)
  length-take zero xs = omega arith
  length-take (suc n) [] = omega arith
  length-take (suc n) (x ∷ xs) = omega (arith, length-take n xs)

  pub length-drop : (n : ℕ) (xs : List A) → length (drop n xs) ≡ length xs - n
  length-drop zero xs = omega arith
  length-drop (suc n) [] = omega arith
  length-drop (suc n) (x ∷ xs) = omega (arith, length-drop n xs)

  pub length-replicate : (n : ℕ) (a : A) → length (replicate n a) ≡ n
  length-replicate zero a = refl
  length-replicate (suc n) a = ap suc (length-replicate n a)

  pub length-overwrite : (dst src : List A) → length (overwrite dst src) ≡ length dst
  unfolding overwrite
  length-overwrite [] src = refl
  length-overwrite (d ∷ dst) [] = refl
  length-overwrite (d ∷ dst) (s ∷ src) = ap suc (length-overwrite dst src)

  pub length-memcpy :
      (dst : List A) (at : ℕ) (src : List A) → length (memcpy dst at src) ≡ length dst
  unfolding memcpy
  length-memcpy dst zero src = length-overwrite dst src
  length-memcpy [] (suc at) src = refl
  length-memcpy (d ∷ dst) (suc at) src = ap suc (length-memcpy dst at src)

  pub take-length : (n : ℕ) (xs : List A) → length xs ≤ n → take n xs ≡ xs
  take-length zero [] h = refl
  take-length zero (x ∷ xs) h = absurd (omega arith)
  take-length (suc n) [] h = refl
  take-length (suc n) (x ∷ xs) h = ap (λ l. x ∷ l) (take-length n xs (omega arith))

  pub take-nil : (n : ℕ) → take {A = A} n [] ≡ []
  take-nil zero = refl
  take-nil (suc n) = refl

  pub take-append : (xs ys : List A) (n : ℕ) → n ≡ length xs → take n (xs ++ ys) ≡ xs
  take-append [] ys zero h = refl
  take-append [] ys (suc n) h = absurd (omega arith)
  take-append (x ∷ xs) ys zero h = absurd (omega arith)
  take-append (x ∷ xs) ys (suc n) h = ap (λ l. x ∷ l) (take-append xs ys n (omega arith))

  pub drop-append : (xs ys : List A) (n : ℕ) → n ≡ length xs → drop n (xs ++ ys) ≡ ys
  drop-append [] ys zero h = refl
  drop-append [] ys (suc n) h = absurd (omega arith)
  drop-append (x ∷ xs) ys zero h = absurd (omega arith)
  drop-append (x ∷ xs) ys (suc n) h = drop-append xs ys n (omega arith)

  pub take-append-drop : (n : ℕ) (xs : List A) → take n xs ++ drop n xs ≡ xs
  take-append-drop zero xs = refl
  take-append-drop (suc n) [] = refl
  take-append-drop (suc n) (x ∷ xs) = ap (λ l. x ∷ l) (take-append-drop n xs)

  pub take-overwrite :
      (dst src : List A) (n : ℕ)
      → n ≡ length src
      → length src ≤ length dst
      → take n (overwrite dst src) ≡ src
  unfolding overwrite
  take-overwrite [] [] zero e h = refl
  take-overwrite [] [] (suc n) e h = absurd (omega arith)
  take-overwrite [] (s ∷ src) n e h = absurd (omega arith)
  take-overwrite (d ∷ dst) [] zero e h = refl
  take-overwrite (d ∷ dst) [] (suc n) e h = absurd (omega arith)
  take-overwrite (d ∷ dst) (s ∷ src) zero e h = absurd (omega arith)
  take-overwrite (d ∷ dst) (s ∷ src) (suc n) e h =
      ap (λ l. s ∷ l) (take-overwrite dst src n (omega arith) (omega arith))

module _ {ℓ} {A : Type ℓ} where
  memcpy-nil : (at : ℕ) (src : List A) → memcpy [] at src ≡ []
  unfolding memcpy overwrite
  memcpy-nil zero src = refl
  memcpy-nil (suc at) src = refl

  pub overwrite-nil : (dst : List A) → overwrite dst [] ≡ dst
  unfolding overwrite
  overwrite-nil [] = refl
  overwrite-nil (d ∷ dst) = refl

  -- Copying nothing changes nothing.
  pub memcpy-nil_src : (dst : List A) (at : ℕ) → memcpy dst at [] ≡ dst
  unfolding memcpy
  memcpy-nil_src dst zero = overwrite-nil dst
  memcpy-nil_src [] (suc at) = refl
  memcpy-nil_src (d ∷ dst) (suc at) = ap (λ l. d ∷ l) (memcpy-nil_src dst at)

  pub overwrite_then :
      (dst xs ys : List A) (j : ℕ)
      → j ≡ length xs
      → memcpy (overwrite dst xs) j ys ≡ overwrite dst (xs ++ ys)
  unfolding memcpy overwrite
  overwrite_then [] xs ys j h = memcpy-nil j ys
  overwrite_then (d ∷ dst) [] ys zero h = refl
  overwrite_then (d ∷ dst) [] ys (suc j) h = absurd (omega arith)
  overwrite_then (d ∷ dst) (x ∷ xs) ys zero h = absurd (omega arith)
  overwrite_then (d ∷ dst) (x ∷ xs) ys (suc j) h =
      ap (λ l. x ∷ l) (overwrite_then dst xs ys j (omega arith))

  -- Two copies, the second right behind the first, are one copy.
  pub memcpy_then :
      (dst : List A) (at : ℕ) (xs ys : List A) (j : ℕ)
      → j ≡ at + length xs
      → memcpy (memcpy dst at xs) j ys ≡ memcpy dst at (xs ++ ys)
  unfolding memcpy
  memcpy_then dst zero xs ys j h = overwrite_then dst xs ys j (omega arith)
  memcpy_then [] (suc at) xs ys j h = memcpy-nil j ys
  memcpy_then (d ∷ dst) (suc at) xs ys zero h = absurd (omega arith)
  memcpy_then (d ∷ dst) (suc at) xs ys (suc j) h =
      ap (λ l. d ∷ l) (memcpy_then dst at xs ys j (omega arith))

  -- Over a whole array the copy is all that is left of it at the front.
  pub overwrite-eq-append :
      (dst src : List A)
      → length src ≤ length dst
      → overwrite dst src ≡ src ++ drop (length src) dst
  unfolding overwrite
  overwrite-eq-append [] [] h = refl
  overwrite-eq-append [] (s ∷ src) h = absurd (omega arith)
  overwrite-eq-append (d ∷ dst) [] h = refl
  overwrite-eq-append (d ∷ dst) (s ∷ src) h =
      ap (λ l. s ∷ l) (overwrite-eq-append dst src (omega arith))

-- A list around one element.
module _ {ℓ} {A : Type ℓ} where
  pub get_or-append_cons :
      (pre post : List A) (x d : A) → get_or (pre ++ (x ∷ post)) (length pre) d ≡ x
  get_or-append_cons [] post x d = refl
  get_or-append_cons (p ∷ pre) post x d = get_or-append_cons pre post x d

  pub take-append_le : (pre ys : List A) (n : ℕ) → n ≤ length pre → take n (pre ++ ys) ≡ take n pre
  take-append_le pre ys zero h = refl
  take-append_le [] ys (suc n) h = absurd (omega arith)
  take-append_le (p ∷ pre) ys (suc n) h = ap (λ l. p ∷ l) (take-append_le pre ys n (omega arith))

  pub drop-append_le :
      (pre ys : List A) (n : ℕ) → n ≤ length pre → drop n (pre ++ ys) ≡ drop n pre ++ ys
  drop-append_le pre ys zero h = refl
  drop-append_le [] ys (suc n) h = absurd (omega arith)
  drop-append_le (p ∷ pre) ys (suc n) h = drop-append_le pre ys n (omega arith)

  pub take-append_cons :
      (pre post : List A) (x : A) (n k : ℕ)
      → n ≡ length pre + suc k
      → take n (pre ++ (x ∷ post)) ≡ pre ++ (x ∷ take k post)
  take-append_cons pre post x zero k h = absurd (omega arith)
  take-append_cons [] post x (suc n) k h = ap (λ (j : ℕ). x ∷ take j post) (omega arith)
  take-append_cons (p ∷ pre) post x (suc n) k h =
      ap (λ l. p ∷ l) (take-append_cons pre post x n k (omega arith))

  pub drop-append_cons :
      (pre post : List A) (x : A) (n k : ℕ)
      → n ≡ length pre + suc k
      → drop n (pre ++ (x ∷ post)) ≡ drop k post
  drop-append_cons pre post x zero k h = absurd (omega arith)
  drop-append_cons [] post x (suc n) k h = ap (λ (j : ℕ). drop j post) (omega arith)
  drop-append_cons (p ∷ pre) post x (suc n) k h = drop-append_cons pre post x n k (omega arith)
