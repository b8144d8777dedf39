-- ===== src/Protocol/Frame/RoundTrip.antt =====
-- `devmgr_frame_encode` writes the frame's wire bytes, and `devmgr_frame_decode` reads them back.
use linux_device_manager.Base.{
  ℕ, ◌+◌, ◌≤◌, ◌<◌, ◌≡◌, refl, arith, List, [], length, take, drop, overwrite, memcpy, memcpy_then,
  length-append, sym, append-nil, ◌^◌, ◌∙◌, length-take, take-append, drop-append, take-overwrite,
  overwrite_then, le→ltb, ap,
}
use linux_device_manager.Status.{ok}
use linux_device_manager.Span.{at, AreBytes, append-AreBytes}
use linux_device_manager.Crc.Detect.{crc32-lt}
use linux_device_manager.Crc.{crc32}
use linux_device_manager.Protocol.Constants.{magic, version, max_payload}
use linux_device_manager.Protocol.Le.{
  byte_at, put_le16, put_le32, get_le16, get_le32, get_le16-put_le16, get_le32-put_le32,
}
use linux_device_manager.Protocol.Frame.{Frame, encode_body, encode, decode}
use linux_device_manager.Protocol.Frame.Wire.{
  Message, message, IsMessage, IsFrame, header, body, wire,
}

length-message : (f : Frame) → IsFrame f → length (message f).payload ≡ f.payload_length
length-message f v = omega (arith, v.array, v.fits, length-take f.payload_length f.payload)

encode_body_lem :
    (f : Frame) (out : List ℕ) → IsFrame f → encode_body f out ≡ overwrite out (body (message f))
unfolding encode_body body header put_le16 put_le32 memcpy
encode_body_lem f out v =
    rw
      (
        length-message f v,
        memcpy_then out 0 _ _ 2 refl,
        memcpy_then out 0 _ _ 3 refl,
        memcpy_then out 0 _ _ 4 refl,
        memcpy_then out 0 _ _ 5 refl,
        memcpy_then out 0 _ _ 6 refl,
        memcpy_then out 0 _ _ 10 refl,
        memcpy_then out 0 _ _ 12 refl,
      )
      refl

pub length-body : (m : Message) → length (body m) ≡ 12 + length m.payload
unfolding body header put_le16 put_le32
length-body m = omega arith

pub length-wire : (m : Message) → length (wire m) ≡ 16 + length m.payload
unfolding wire put_le32
length-wire m =
    omega (arith, length-body m, length-append {0} (body m) (put_le32 (crc32 (at (body m)))))

-- What a successful encoding leaves in the buffer: the wire bytes, then what was there.
pub encode_lem :
    (f : Frame) (out : List ℕ) (n : ℕ)
    → IsFrame f
    → 16 + f.payload_length ≤ length out
    → encode f out n ≡ record {
      status = ok;
      output = overwrite out (wire (message f));
      encoded_length = 16 + f.payload_length;
    }
unfolding encode wire
encode_lem f out n v room =
    let fits : length (body (message f)) ≤ length out =
      omega (arith, length-body (message f), length-message f v) in
    let ends : 12 + f.payload_length ≡ length (body (message f)) =
      omega (arith, length-body (message f), length-message f v) in
    rw
      (
        le→ltb max_payload f.payload_length v.fits,
        le→ltb (length out) (12 + f.payload_length + 4) (omega arith),
        encode_body_lem f out v,
        take-overwrite out (body (message f)) (12 + f.payload_length) ends fits,
        overwrite_then out (body (message f)) _ (12 + f.payload_length) ends,
      )
      (ap
        (λ (k : ℕ). record {
          status = ok;
          output = overwrite out (wire (message f));
          encoded_length = k;
        })
        (omega arith))

-- `*frame` after a successful decoding of the message `m`.
abbrev pub received : Message → Frame → Frame
received m frame = record {
  type = m.type;
  flags = m.flags;
  sequence = m.sequence;
  payload_length = length m.payload;
  payload = overwrite frame.payload m.payload;
}

pub body-AreBytes : (m : Message) → IsMessage m → AreBytes (body m)
unfolding body header put_le16 put_le32
body-AreBytes m v =
    append-AreBytes (header m) m.payload (omega (arith, v.type_byte, v.flags_byte)) v.payload_bytes

pub crc32-body-lt : (m : Message) → IsMessage m → crc32 (at (body m)) < 2 ^ 32
crc32-body-lt m v = crc32-lt (body m) (body-AreBytes m v)

-- The fields as `decode` finds them in the wire bytes.
module _ (m : Message) (v : IsMessage m) where
  found_magic : get_le16 (wire m) ≡ magic
  unfolding get_le16 wire body header put_le16
  found_magic = refl

  found_bytes :
      (byte_at (wire m) 2 ≡ version)
      × (byte_at (wire m) 5 ≡ 0)
      × (byte_at (wire m) 3 ≡ m.type)
      × (byte_at (wire m) 4 ≡ m.flags)
  unfolding wire body header put_le16
  found_bytes = (refl, refl, refl, refl)

  found_length : get_le16 (drop 10 (wire m)) ≡ length m.payload
  unfolding wire body header put_le16 put_le32
  found_length = get_le16-put_le16 (length m.payload) _ (omega (arith, v.payload_fits))

  found_sequence : get_le32 (drop 6 (wire m)) ≡ m.sequence
  unfolding wire body header put_le16 put_le32
  found_sequence = get_le32-put_le32 m.sequence _ v.sequence_word

  found_body : take (12 + length m.payload) (wire m) ≡ body m
  unfolding wire
  found_body = take-append (body m) _ (12 + length m.payload) (sym (length-body m))

  found_crc : get_le32 (drop (12 + length m.payload) (wire m)) ≡ crc32 (at (body m))
  unfolding wire
  found_crc =
      rw
        (drop-append (body m) (put_le32 (crc32 (at (body m)))) (12 + length m.payload)
          (sym (length-body m)))
        (ap get_le32 (sym (append-nil (put_le32 (crc32 (at (body m))))))
          ∙ get_le32-put_le32 (crc32 (at (body m))) [] (crc32-body-lt m v))

  found_payload : take (length m.payload) (drop 12 (wire m)) ≡ m.payload
  unfolding wire body header put_le16 put_le32
  found_payload = take-append m.payload _ (length m.payload) refl

-- Decoding the wire bytes of a message gives the message.
pub decode-wire :
    (m : Message) (frame : Frame) → IsMessage m → decode (wire m) frame ≡ (ok, received m frame)
unfolding decode
decode-wire m frame v =
    rw
      (
        found_length m v,
        length-wire m,
        found_magic m v,
        (found_bytes m v).0,
        (found_bytes m v).1,
        (found_bytes m v).2,
        (found_bytes m v).3,
        found_sequence m v,
        found_body m v,
        found_crc m v,
        found_payload m v,
      )
      (ground (arith, v.payload_fits))

-- `devmgr_frame_decode` undoes `devmgr_frame_encode`: into a buffer with room, encoding succeeds,
-- and decoding what it wrote succeeds and gives a frame that says the same.
pub encode-decode :
    (f g : Frame) (out : List ℕ) (n : ℕ)
    → IsFrame f
    → length g.payload ≡ max_payload
    → 16 + f.payload_length ≤ length out
    → let e = encode f out n in
      (e.status ≡ ok)
      × ((decode (take e.encoded_length e.output) g).0 ≡ ok)
      × (message (decode (take e.encoded_length e.output) g).1 ≡ message f)
encode-decode f g out n v full room = rw (encode_lem f out n v room) (
    rw
      (
        take-overwrite out (wire (message f)) (16 + f.payload_length) (omega (arith, sizes))
            (omega (arith, sizes)),
        decode-wire (message f) g v.says,
        take-overwrite g.payload (message f).payload (length (message f).payload) refl
            (omega (arith, v.says.payload_fits)),
      )
      (refl, refl, refl))
  where
    sizes : length (wire (message f)) ≡ 16 + f.payload_length
    sizes = omega (arith, length-wire (message f), length-message f v)
