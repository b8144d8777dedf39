-- ===== src/Crc/Detect.antt =====
-- The CRC register: its range, and the changes that it always detects.
use Prim.Native.Nat.{bit_xor}
use native.Mathlib.Decide.{ℕ_discrete}
use linux_device_manager.Base.{
  ℕ, zero, suc, ◌/◌, ◌%◌, ◌^◌, ◌≤◌, ◌<◌, List, [], ◌∷◌, ◌++◌, ◌≡◌, ◌≢◌, refl, sym, ◌∙◌, arith,
  bit_xor-lt, bit_xor_top, bit_xor_left_inj, bit_xor_right_inj,
}
use linux_device_manager.Span.{at, AreBytes}
use linux_device_manager.Crc.{
  init, xor_out, polynomial, shift_bit, shift_bits, add_byte, update_bytes, update, finish, crc32,
}

shift_bit-even : (s : ℕ) → s % 2 ≡ 0 → shift_bit s ≡ bit_xor (s / 2) 0
unfolding shift_bit
shift_bit-even s e = rw e refl

shift_bit-odd : (s : ℕ) → s % 2 ≡ 1 → shift_bit s ≡ bit_xor (s / 2) polynomial
unfolding shift_bit
shift_bit-odd s e = rw e refl

parity : (s : ℕ) → s % 2 ≢ 0 → s % 2 ≡ 1
parity s h = omega arith

shift_bit-lt : (s : ℕ) → s < 2 ^ 32 → shift_bit s < 2 ^ 32
shift_bit-lt s h = elim (ℕ_discrete (s % 2) 0) [
  | yes e ↦ rw (shift_bit-even s e) (bit_xor-lt 32 (s / 2) 0 (omega arith) (omega arith))
  | no n ↦
      rw (shift_bit-odd s (parity s n))
        (bit_xor-lt 32 (s / 2) polynomial (omega arith) (omega arith))
]

-- The top bit of the result is the bit shifted out.
shift_bit-even_top : (s : ℕ) → s < 2 ^ 32 → s % 2 ≡ 0 → shift_bit s < 2 ^ 31
shift_bit-even_top s h e =
    rw (shift_bit-even s e) (bit_xor-lt 31 (s / 2) 0 (omega arith) (omega arith))

shift_bit-odd_top : (s : ℕ) → s < 2 ^ 32 → s % 2 ≡ 1 → 2 ^ 31 ≤ shift_bit s
shift_bit-odd_top s h e =
    rw (shift_bit-odd s e)
      (bit_xor_top 31 (s / 2) polynomial (omega arith) (omega arith) (omega arith))

halves : (s t : ℕ) → s % 2 ≡ t % 2 → s / 2 ≡ t / 2 → s ≡ t
halves s t p q = omega arith

-- A round loses nothing.
shift_bit_inj : (s t : ℕ) → s < 2 ^ 32 → t < 2 ^ 32 → shift_bit s ≡ shift_bit t → s ≡ t
shift_bit_inj s t hs ht e = elim (ℕ_discrete (s % 2) 0) [
  | yes se ↦ elim (ℕ_discrete (t % 2) 0) [
    | yes te ↦
        halves s t (omega arith)
          (bit_xor_left_inj (s / 2) (t / 2) 0 (sym (shift_bit-even s se) ∙ e ∙ shift_bit-even t te))
    | no tn ↦
        absurd (omega (arith, shift_bit-even_top s hs se, shift_bit-odd_top t ht (parity t tn)))
  ]
  | no sn ↦ elim (ℕ_discrete (t % 2) 0) [
    | yes te ↦
        absurd (omega (arith, shift_bit-even_top t ht te, shift_bit-odd_top s hs (parity s sn)))
    | no tn ↦ halves s t (omega arith) (
        bit_xor_left_inj (s / 2) (t / 2) polynomial
          (sym (shift_bit-odd s (parity s sn)) ∙ e ∙ shift_bit-odd t (parity t tn)))
  ]
]

shift_bits-lt : (n s : ℕ) → s < 2 ^ 32 → shift_bits n s < 2 ^ 32
unfolding shift_bits
shift_bits-lt zero s h = h
shift_bits-lt (suc n) s h = shift_bits-lt n (shift_bit s) (shift_bit-lt s h)

shift_bits_inj : (n s t : ℕ) → s < 2 ^ 32 → t < 2 ^ 32 → shift_bits n s ≡ shift_bits n t → s ≡ t
unfolding shift_bits
shift_bits_inj zero s t hs ht e = e
shift_bits_inj (suc n) s t hs ht e =
    shift_bit_inj s t hs ht
      (shift_bits_inj n (shift_bit s) (shift_bit t) (shift_bit-lt s hs) (shift_bit-lt t ht) e)

mixed-lt : (s x : ℕ) → s < 2 ^ 32 → x < 256 → bit_xor s x < 2 ^ 32
mixed-lt s x hs hx = bit_xor-lt 32 s x hs (omega arith)

add_byte-lt : (s x : ℕ) → s < 2 ^ 32 → x < 256 → add_byte s x < 2 ^ 32
unfolding add_byte
add_byte-lt s x hs hx = shift_bits-lt 8 (bit_xor s x) (mixed-lt s x hs hx)

add_byte_mixed :
    (s t x y : ℕ)
    → s < 2 ^ 32
    → t < 2 ^ 32
    → x < 256
    → y < 256
    → add_byte s x ≡ add_byte t y
    → bit_xor s x ≡ bit_xor t y
unfolding add_byte
add_byte_mixed s t x y hs ht hx hy e =
    shift_bits_inj 8 (bit_xor s x) (bit_xor t y) (mixed-lt s x hs hx) (mixed-lt t y ht hy) e

update_bytes-lt : (xs : List ℕ) (s : ℕ) → AreBytes xs → s < 2 ^ 32 → update_bytes s xs < 2 ^ 32
unfolding update_bytes
update_bytes-lt [] s b h = h
update_bytes-lt (x ∷ xs) s b h = update_bytes-lt xs (add_byte s x) b.1 (add_byte-lt s x h b.0)

-- Different registers stay different over the same bytes.
update_bytes_inj :
    (xs : List ℕ) (s t : ℕ)
    → AreBytes xs
    → s < 2 ^ 32
    → t < 2 ^ 32
    → update_bytes s xs ≡ update_bytes t xs
    → s ≡ t
unfolding update_bytes
update_bytes_inj [] s t b hs ht e = e
update_bytes_inj (x ∷ xs) s t b hs ht e =
    let next =
      update_bytes_inj xs (add_byte s x) (add_byte t x) b.1 (add_byte-lt s x hs b.0)
        (add_byte-lt t x ht b.0) e in
    bit_xor_left_inj s t x (add_byte_mixed s t x x hs ht b.0 b.0 next)

pub crc32-lt : (xs : List ℕ) → AreBytes xs → crc32 (at xs) < 2 ^ 32
unfolding crc32 update finish
crc32-lt xs b =
    bit_xor-lt 32 (update_bytes init xs) xor_out (update_bytes-lt xs init b (omega arith))
      (omega arith)

replaced :
    (pre post : List ℕ) (x y s : ℕ)
    → AreBytes pre
    → AreBytes post
    → x < 256
    → y < 256
    → s < 2 ^ 32
    → update_bytes s (pre ++ (x ∷ post)) ≡ update_bytes s (pre ++ (y ∷ post))
    → x ≡ y
unfolding update_bytes
replaced [] post x y s bp bq hx hy hs e =
    let same =
      update_bytes_inj post (add_byte s x) (add_byte s y) bq (add_byte-lt s x hs hx)
        (add_byte-lt s y hs hy) e in
    bit_xor_right_inj x y s (add_byte_mixed s s x y hs hs hx hy same)
replaced (p ∷ pre) post x y s bp bq hx hy hs e =
    replaced pre post x y (add_byte s p) bp.1 bq hx hy (add_byte-lt s p hs bp.0) e

-- Replacing one byte of a message by another always changes `devmgr_crc32` of the message.
pub crc32_detects_byte :
    (pre post : List ℕ) (x y : ℕ)
    → AreBytes pre
    → AreBytes post
    → x < 256
    → y < 256
    → x ≢ y
    → crc32 (at (pre ++ (x ∷ post))) ≢ crc32 (at (pre ++ (y ∷ post)))
unfolding crc32 update finish
crc32_detects_byte pre post x y bp bq hx hy ne e = ne (
    replaced pre post x y init bp bq hx hy (omega arith) (
      bit_xor_left_inj (update_bytes init (pre ++ (x ∷ post)))
        (update_bytes init (pre ++ (y ∷ post))) xor_out e))
