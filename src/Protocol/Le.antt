-- ===== src/Protocol/Le.antt =====
-- The little-endian helpers of src/protocol/frame.c. A writer gives the bytes that it stores from
-- `output` on; a reader is given the bytes from `input` on. The shifted bytes that a reader joins
-- by `|` occupy different bits, so the join is a sum.
use linux_device_manager.Base.{
  ℕ, zero, suc, ◌+◌, ◌*◌, ◌/◌, ◌^◌, ◌≤◌, ◌<◌, List, [], ◌∷◌, ◌++◌, ◌≡◌, refl, ap, arith, u8, get_or,
  length, drop,
}
use linux_device_manager.Span.{AreBytes}

-- `input[index]`; the callers read in range.
abbrev pub byte_at : List ℕ → ℕ → ℕ
byte_at xs i = get_or xs i 0

-- `devmgr_put_le16`
unfoldable pub put_le16 : ℕ → List ℕ
put_le16 value = u8 value ∷ u8 (value / 2 ^ 8) ∷ []

-- `devmgr_put_le32`
unfoldable pub put_le32 : ℕ → List ℕ
put_le32 value = u8 value ∷ u8 (value / 2 ^ 8) ∷ u8 (value / 2 ^ 16) ∷ u8 (value / 2 ^ 24) ∷ []

-- `devmgr_get_le16`
unfoldable pub get_le16 : List ℕ → ℕ
get_le16 input = byte_at input 0 + byte_at input 1 * 2 ^ 8

-- `devmgr_get_le32`
unfoldable pub get_le32 : List ℕ → ℕ
get_le32 input =
    byte_at input 0 + byte_at input 1 * 2 ^ 8 + byte_at input 2 * 2 ^ 16 + byte_at input 3 * 2 ^ 24

length-put_le16 : (v : ℕ) → length (put_le16 v) ≡ 2
unfolding put_le16
length-put_le16 v = refl

pub length-put_le32 : (v : ℕ) → length (put_le32 v) ≡ 4
unfolding put_le32
length-put_le32 v = refl

put_le16-AreBytes : (v : ℕ) → AreBytes (put_le16 v)
unfolding put_le16
put_le16-AreBytes v = omega arith

pub put_le32-AreBytes : (v : ℕ) → AreBytes (put_le32 v)
unfolding put_le32
put_le32-AreBytes v = omega arith

-- A stored 16-bit value is read back, whatever follows it.
pub get_le16-put_le16 : (v : ℕ) (rest : List ℕ) → v < 2 ^ 16 → get_le16 (put_le16 v ++ rest) ≡ v
unfolding get_le16 put_le16
get_le16-put_le16 v rest h = omega arith

-- A stored 32-bit value is read back, whatever follows it.
pub get_le32-put_le32 : (v : ℕ) (rest : List ℕ) → v < 2 ^ 32 → get_le32 (put_le32 v ++ rest) ≡ v
unfolding get_le32 put_le32
get_le32-put_le32 v rest h = omega arith

pub byte_at-lt : (xs : List ℕ) (i : ℕ) → AreBytes xs → byte_at xs i < 256
byte_at-lt [] i b = omega arith
byte_at-lt (x ∷ xs) zero b = b.0
byte_at-lt (x ∷ xs) (suc i) b = byte_at-lt xs i b.1

-- The bytes that a value was read from are the bytes that it is stored as.
pub put_le16-get_le16 :
    (xs : List ℕ) → AreBytes xs → put_le16 (get_le16 xs) ≡ byte_at xs 0 ∷ byte_at xs 1 ∷ []
unfolding get_le16 put_le16
put_le16-get_le16 xs b = ground (arith, byte_at-lt xs 0 b, byte_at-lt xs 1 b)

pub put_le32-get_le32 :
    (xs : List ℕ)
    → AreBytes xs
    → put_le32 (get_le32 xs) ≡ byte_at xs 0 ∷ byte_at xs 1 ∷ byte_at xs 2 ∷ byte_at xs 3 ∷ []
unfolding get_le32 put_le32
put_le32-get_le32 xs b =
    ground (arith, byte_at-lt xs 0 b, byte_at-lt xs 1 b, byte_at-lt xs 2 b, byte_at-lt xs 3 b)

pub put_le32_inj : (v w : ℕ) → v < 2 ^ 32 → w < 2 ^ 32 → put_le32 v ≡ put_le32 w → v ≡ w
put_le32_inj v w hv hw e =
    let back : get_le32 (put_le32 v ++ []) ≡ get_le32 (put_le32 w ++ []) =
      λ i. get_le32 (e i ++ []) in
    omega (arith, back, get_le32-put_le32 v [] hv, get_le32-put_le32 w [] hw)

get_le16-lt : (xs : List ℕ) → AreBytes xs → get_le16 xs < 2 ^ 16
unfolding get_le16
get_le16-lt xs b = omega (arith, byte_at-lt xs 0 b, byte_at-lt xs 1 b)

pub get_le32-lt : (xs : List ℕ) → AreBytes xs → get_le32 xs < 2 ^ 32
unfolding get_le32
get_le32-lt xs b =
    omega (arith, byte_at-lt xs 0 b, byte_at-lt xs 1 b, byte_at-lt xs 2 b, byte_at-lt xs 3 b)

-- Reading from a pointer into an array is reading the array further on.
pub byte_at-drop : (n : ℕ) (xs : List ℕ) (i : ℕ) → byte_at (drop n xs) i ≡ byte_at xs (n + i)
byte_at-drop zero xs i = ap (byte_at xs) (omega arith)
byte_at-drop (suc n) [] i = refl
byte_at-drop (suc n) (x ∷ xs) i = ground (arith, byte_at-drop n xs i)

-- The `count` bytes from index `from` on, one by one.
abbrev pub bytes_from : ℕ → ℕ → List ℕ → List ℕ
bytes_from from zero xs = []
bytes_from from (suc count) xs = byte_at xs from ∷ bytes_from (suc from) count xs

drop-cons :
    (from : ℕ) (xs : List ℕ)
    → from < length xs
    → drop from xs ≡ byte_at xs from ∷ drop (suc from) xs
drop-cons zero [] h = absurd (omega arith)
drop-cons zero (x ∷ xs) h = refl
drop-cons (suc from) [] h = absurd (omega arith)
drop-cons (suc from) (x ∷ xs) h = drop-cons from xs (omega arith)

pub bytes_from-drop :
    (count from : ℕ) (xs : List ℕ) (end : ℕ)
    → end ≡ from + count
    → end ≤ length xs
    → bytes_from from count xs ++ drop end xs ≡ drop from xs
bytes_from-drop zero from xs end e h = ap (λ (k : ℕ). drop k xs) (omega arith)
bytes_from-drop (suc count) from xs end e h =
    rw (drop-cons from xs (omega arith))
      (ap (λ l. byte_at xs from ∷ l) (bytes_from-drop count (suc from) xs end (omega arith) h))
