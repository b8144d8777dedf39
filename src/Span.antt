-- ===== src/Span.antt =====
-- A `(const void *data, size_t length)` argument pair: a null pointer with a length, or the bytes.
use linux_device_manager.Base.{ℕ, zero, suc, List, [], ◌∷◌, ◌++◌, All, ◌<◌, length, take, drop}

pub data Span : Type 0 where
  null : ℕ → Span
  at : List ℕ → Span

abbrev pub span_length : Span → ℕ
span_length (null n) = n
span_length (at xs) = length xs

-- Every element is a value of `uint8_t`.
abbrev pub AreBytes : List ℕ → Type 0
AreBytes xs = All (λ x. x < 256) xs

pub append-AreBytes : (xs ys : List ℕ) → AreBytes xs → AreBytes ys → AreBytes (xs ++ ys)
append-AreBytes [] ys bx by = by
append-AreBytes (x ∷ xs) ys bx by = (bx.0, append-AreBytes xs ys bx.1 by)

pub append-AreBytes_left : (xs ys : List ℕ) → AreBytes (xs ++ ys) → AreBytes xs
append-AreBytes_left [] ys b = tt
append-AreBytes_left (x ∷ xs) ys b = (b.0, append-AreBytes_left xs ys b.1)

pub append-AreBytes_right : (xs ys : List ℕ) → AreBytes (xs ++ ys) → AreBytes ys
append-AreBytes_right [] ys b = b
append-AreBytes_right (x ∷ xs) ys b = append-AreBytes_right xs ys b.1

pub take-AreBytes : (n : ℕ) (xs : List ℕ) → AreBytes xs → AreBytes (take n xs)
take-AreBytes zero xs b = tt
take-AreBytes (suc n) [] b = tt
take-AreBytes (suc n) (x ∷ xs) b = (b.0, take-AreBytes n xs b.1)

pub drop-AreBytes : (n : ℕ) (xs : List ℕ) → AreBytes xs → AreBytes (drop n xs)
drop-AreBytes zero xs b = b
drop-AreBytes (suc n) [] b = tt
drop-AreBytes (suc n) (x ∷ xs) b = drop-AreBytes n xs b.1
