-- ===== src/Protocol/Frame/Reads.antt =====
-- What the fields of a payload read as, by the message that a frame carries.
use linux_device_manager.Base.{
  ℕ, zero, suc, ◌-◌, ◌≤◌, ◌<◌, ◌≡◌, refl, sym, ap, ◌∙◌, arith, List, [], ◌∷◌, length, take, drop,
  length-take, take-nil,
}
use linux_device_manager.Protocol.Le.{byte_at, get_le16, get_le32}
use linux_device_manager.Protocol.Frame.{Frame}
use linux_device_manager.Protocol.Frame.Wire.{IsFrame}

byte_at-take : (n : ℕ) (xs : List ℕ) (i : ℕ) → i < n → byte_at (take n xs) i ≡ byte_at xs i
byte_at-take zero xs i h = absurd (omega arith)
byte_at-take (suc n) [] i h = refl
byte_at-take (suc n) (x ∷ xs) zero h = refl
byte_at-take (suc n) (x ∷ xs) (suc i) h = byte_at-take n xs i (omega arith)

drop-take : (k n m : ℕ) (xs : List ℕ) → m ≡ n - k → drop k (take n xs) ≡ take m (drop k xs)
drop-take zero n m xs h = ap (λ (j : ℕ). take j xs) (omega arith)
drop-take (suc k) zero zero xs h = refl
drop-take (suc k) zero (suc m) xs h = absurd (omega arith)
drop-take (suc k) (suc n) m [] h = sym (take-nil {A = ℕ} m)
drop-take (suc k) (suc n) m (x ∷ xs) h = drop-take k n m xs (omega arith)

get_le32-take : (n : ℕ) (xs : List ℕ) → 4 ≤ n → get_le32 (take n xs) ≡ get_le32 xs
unfolding get_le32
get_le32-take n xs h = omega (
  arith,
  byte_at-take n xs 0 (omega arith),
  byte_at-take n xs 1 (omega arith),
  byte_at-take n xs 2 (omega arith),
  byte_at-take n xs 3 (omega arith),
)

get_le16-take : (n : ℕ) (xs : List ℕ) → 2 ≤ n → get_le16 (take n xs) ≡ get_le16 xs
unfolding get_le16
get_le16-take n xs h =
    omega (arith, byte_at-take n xs 0 (omega arith), byte_at-take n xs 1 (omega arith))

-- What a handler finds in the payload of a frame that carries the bytes `p`.
pub record Reads (f : Frame) (p : List ℕ) : Type 0 where
  pub size : f.payload_length ≡ length p
  pub word : 4 ≤ length p → get_le32 f.payload ≡ get_le32 p
  pub second : 8 ≤ length p → get_le32 (drop 4 f.payload) ≡ get_le32 (drop 4 p)
  pub third : 10 ≤ length p → get_le16 (drop 8 f.payload) ≡ get_le16 (drop 8 p)
  pub rest : take (length p - 8) (drop 8 f.payload) ≡ drop 8 p
  pub text : take (length p - 10) (drop 10 f.payload) ≡ drop 10 p

pub message-Reads :
    (f : Frame) (p : List ℕ) → IsFrame f → take f.payload_length f.payload ≡ p → Reads f p
message-Reads f p v e = record {
  size = size;
  word = λ h. sym (get_le32-take f.payload_length f.payload (omega (arith, size))) ∙ ap get_le32 e;
  second = λ h.
      sym (get_le32-take (f.payload_length - 4) (drop 4 f.payload) (omega (arith, size)))
      ∙ ap get_le32 (after 4);
  third = λ h.
      sym (get_le16-take (f.payload_length - 8) (drop 8 f.payload) (omega (arith, size)))
      ∙ ap get_le16 (after 8);
  rest = ap (λ (k : ℕ). take (k - 8) (drop 8 f.payload)) (sym size) ∙ after 8;
  text = ap (λ (k : ℕ). take (k - 10) (drop 10 f.payload)) (sym size) ∙ after 10;
}
  where
    size : f.payload_length ≡ length p
    size = omega (arith, v.array, v.fits, length-take f.payload_length f.payload, ap length e)

    after : (k : ℕ) → take (f.payload_length - k) (drop k f.payload) ≡ drop k p
    after k =
        sym (drop-take k f.payload_length (f.payload_length - k) f.payload refl) ∙ ap (drop k) e
