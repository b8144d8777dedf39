-- ===== src/Stm32/Codec/Agrees.antt =====
-- The device's codec against the host's, src/protocol/frame.c.
use linux_device_manager.Base.{
  ℕ, ◌+◌, ◌≤◌, ◌≡◌, ◌↔◌, refl, sym, arith, List, [], ◌∷◌, length, take, drop, memcpy-nil_src,
  le→ltb, length-take, pos,
}
use linux_device_manager.Status.{ok}
use linux_device_manager.Span.{at}
use linux_device_manager.Crc
use linux_device_manager.Crc.{add_byte, update_bytes}
use linux_device_manager.Protocol.Le
use linux_device_manager.Protocol.Frame
use linux_device_manager.Protocol.Frame.{Frame}
use linux_device_manager.Protocol.Frame.Wire.{Message, message, IsFrame, received_payload}
use linux_device_manager.Stm32.Codec.{
  View, put_le16, put_le32, get_le16, get_le32, crc_loop, crc32, max_payload, decode, encode_body,
  encode,
}

put_le16-eq : (v : ℕ) → put_le16 v ≡ Le.put_le16 v
unfolding put_le16 Le.put_le16
put_le16-eq v = refl

put_le32-eq : (v : ℕ) → put_le32 v ≡ Le.put_le32 v
unfolding put_le32 Le.put_le32
put_le32-eq v = refl

get_le16-eq : (xs : List ℕ) → get_le16 xs ≡ Le.get_le16 xs
unfolding get_le16 Le.get_le16
get_le16-eq xs = refl

pub get_le32-eq : (xs : List ℕ) → get_le32 xs ≡ Le.get_le32 xs
unfolding get_le32 Le.get_le32
get_le32-eq xs = refl

crc_loop-eq : (xs : List ℕ) (c : ℕ) → crc_loop c xs ≡ update_bytes c xs
unfolding crc_loop update_bytes add_byte
crc_loop-eq [] c = refl
crc_loop-eq (x ∷ xs) c = crc_loop-eq xs _

crc32-eq : (xs : List ℕ) → crc32 xs ≡ Crc.crc32 (at xs)
unfolding crc32 Crc.crc32 Crc.update Crc.finish
crc32-eq xs = rw (crc_loop-eq xs Crc.init) refl

-- What a view says.
abbrev pub view_message : View → Message
view_message v = record {
  type = v.type;
  flags = v.flags;
  sequence = v.sequence;
  payload = take v.payload_length v.payload;
}

-- The device decodes a byte string exactly when the host does, whatever the two hold before the
-- call, and then both read the same message in it.
pub decode_agrees :
    (bytes : List ℕ) (v : View) (f : Frame)
    → length f.payload ≡ max_payload
    → (((decode bytes v).0 ≡ pos 0) ↔ ((Frame.decode bytes f).0 ≡ ok))
      × ((decode bytes v).0 ≡ pos 0
          → view_message (decode bytes v).1 ≡ message (Frame.decode bytes f).1)
unfolding decode Frame.decode
decode_agrees bytes v f array =
    rw
      (
        get_le16-eq bytes,
        get_le16-eq (drop 10 bytes),
        get_le32-eq (drop 6 bytes),
        get_le32-eq (drop (12 + Le.get_le16 (drop 10 bytes)) bytes),
        crc32-eq (take (12 + Le.get_le16 (drop 10 bytes)) bytes),
      )
      (
        ((λ h. ground arith), (λ h. ground arith)),
        (λ h. ground (arith, received_payload bytes f.payload (Le.get_le16 (drop 10 bytes)) array)),
      )

encode_body-eq :
    (f : Frame) (p out : List ℕ)
    → take f.payload_length f.payload ≡ p
    → length p ≡ f.payload_length
    → encode_body f.type f.flags f.sequence (at p) out ≡ Frame.encode_body f out
unfolding encode_body Frame.encode_body
encode_body-eq f [] out e h =
    rw (put_le16-eq 0x4d44, put_le32-eq f.sequence, put_le16-eq 0, e, ← h)
      (sym (memcpy-nil_src _ 12))
encode_body-eq f (x ∷ xs) out e h =
    rw (put_le16-eq 0x4d44, put_le32-eq f.sequence, put_le16-eq (length (x ∷ xs)), e, ← h) refl

-- Where both have room, the device encodes the message of a frame just as the host encodes the
-- frame: the same bytes, and as many.
pub encode_agrees :
    (f : Frame) (out : List ℕ) (n k : ℕ)
    → IsFrame f
    → 16 + f.payload_length ≤ length out
    → let e = encode f.type f.flags f.sequence (at (take f.payload_length f.payload)) out n in
      (e.result ≡ pos 0)
      × (e.output ≡ (Frame.encode f out k).output)
      × (e.encoded_length ≡ (Frame.encode f out k).encoded_length)
unfolding encode Frame.encode
encode_agrees f out n k v room =
    rw
      (
        used,
        encode_body-eq f (take f.payload_length f.payload) out refl used,
        crc32-eq (take (12 + f.payload_length) (Frame.encode_body f out)),
        put_le32-eq (Crc.crc32 (at (take (12 + f.payload_length) (Frame.encode_body f out)))),
        le→ltb max_payload f.payload_length v.fits,
        le→ltb (length out) (12 + f.payload_length + 4) (omega arith),
      )
      (refl, refl, refl)
  where
    used : length (take f.payload_length f.payload) ≡ f.payload_length
    used = omega (arith, length-take f.payload_length f.payload, v.array, v.fits)
