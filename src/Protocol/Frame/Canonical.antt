-- ===== src/Protocol/Frame/Canonical.antt =====
-- What `devmgr_frame_decode` accepts: exactly the wire bytes of some message.
use linux_device_manager.Base.{
  ℕ, ◌+◌, ◌≤◌, ◌≡◌, refl, sym, ap, ◌∙◌, arith, List, [], ◌∷◌, ◌++◌, length, take, drop, overwrite,
  length-overwrite, length-append, length-take, length-drop, take-append, drop-append,
  take-append-drop, take-overwrite, append-nil,
}
use linux_device_manager.Status.{ok}
use linux_device_manager.Span.{at, AreBytes, take-AreBytes, drop-AreBytes}
use linux_device_manager.Crc.{crc32}
use linux_device_manager.Protocol.Constants.{magic, version, max_payload}
use linux_device_manager.Protocol.Le.{
  byte_at, put_le32, get_le16, get_le32, byte_at-lt, byte_at-drop, put_le16-get_le16,
  put_le32-get_le32, get_le32-lt, bytes_from, bytes_from-drop,
}
use linux_device_manager.Protocol.Frame.{Frame, decode}
use linux_device_manager.Protocol.Frame.Wire.{message, IsFrame, header, body, wire}
use linux_device_manager.Protocol.Frame.RoundTrip.{length-body}

-- The checks that `decode` makes, and what it stores when they pass.
record Accepts (bytes : List ℕ) (g f : Frame) : Type 0 where
  size : length bytes ≡ 16 + f.payload_length
  magic_ok : get_le16 bytes ≡ magic
  version_ok : byte_at bytes 2 ≡ version
  reserved_ok : byte_at bytes 5 ≡ 0
  limit_ok : f.payload_length ≤ max_payload
  crc_ok :
      crc32 (at (take (12 + f.payload_length) bytes))
      ≡ get_le32 (drop (12 + f.payload_length) bytes)
  type_is : f.type ≡ byte_at bytes 3
  flags_are : f.flags ≡ byte_at bytes 4
  sequence_is : f.sequence ≡ get_le32 (drop 6 bytes)
  length_is : f.payload_length ≡ get_le16 (drop 10 bytes)
  payload_is : f.payload ≡ overwrite g.payload (take f.payload_length (drop 12 bytes))

decode-Accepts : (bytes : List ℕ) (g f : Frame) → decode bytes g ≡ (ok, f) → Accepts bytes g f
unfolding decode
decode-Accepts bytes g f e = ground arith

-- The wire bytes, cut at the places where the fields stand.
module _ (bytes : List ℕ) (g f : Frame) (a : Accepts bytes g f) (b : AreBytes bytes)
    (array : length g.payload ≡ max_payload) where
  payload : List ℕ
  payload = take f.payload_length (drop 12 bytes)

  length-payload : length payload ≡ f.payload_length
  unfolding payload
  length-payload =
      omega (arith, a.size, length-take f.payload_length (drop 12 bytes), length-drop 12 bytes)

  message-payload : (message f).payload ≡ payload
  unfolding payload
  message-payload = rw (a.payload_is) (
      take-overwrite g.payload payload f.payload_length (sym length-payload)
        (omega (arith, length-payload, array, a.limit_ok)))

  rest : List ℕ
  rest = drop f.payload_length (drop 12 bytes)

  header-read : header (message f) ≡ bytes_from 0 12 bytes
  unfolding header
  header-read =
      rw
        (
          message-payload,
          length-payload,
          ← a.magic_ok,
          put_le16-get_le16 bytes b,
          a.sequence_is,
          put_le32-get_le32 (drop 6 bytes) (drop-AreBytes 6 bytes b),
          a.length_is,
          put_le16-get_le16 (drop 10 bytes) (drop-AreBytes 10 bytes b),
          a.type_is,
          a.flags_are,
        )
        (cc (
          a.version_ok,
          a.reserved_ok,
          byte_at-drop 6 bytes 0,
          byte_at-drop 6 bytes 1,
          byte_at-drop 6 bytes 2,
          byte_at-drop 6 bytes 3,
          byte_at-drop 10 bytes 0,
          byte_at-drop 10 bytes 1,
        ))

  bytes-body : bytes ≡ body (message f) ++ rest
  unfolding body rest payload
  bytes-body =
      rw (header-read, message-payload)
        (sym (bytes_from-drop 12 0 bytes 12 refl (omega (arith, a.size)))
          ∙ ap (λ (l : List ℕ). bytes_from 0 12 bytes ++ l)
              (sym (take-append-drop f.payload_length (drop 12 bytes))))

  length-body_read : length (body (message f)) ≡ 12 + f.payload_length
  length-body_read =
      omega (arith, length-body (message f), ap (length {0}) message-payload, length-payload)

  length-rest : length rest ≡ 4
  length-rest = omega (
    arith,
    a.size,
    ap (length {0}) bytes-body,
    length-append {0} (body (message f)) rest,
    length-body_read,
  )

  rest-AreBytes : AreBytes rest
  unfolding rest
  rest-AreBytes = drop-AreBytes f.payload_length (drop 12 bytes) (drop-AreBytes 12 bytes b)

  rest-stored : put_le32 (get_le32 rest) ≡ rest
  rest-stored =
      put_le32-get_le32 rest rest-AreBytes
      ∙ sym (append-nil (bytes_from 0 4 rest))
      ∙ ap (λ (l : List ℕ). bytes_from 0 4 rest ++ l) (sym nothing_left)
      ∙ bytes_from-drop 4 0 rest 4 refl (omega (arith, length-rest))
    where
      empty : (xs : List ℕ) → length xs ≡ 0 → xs ≡ []
      empty [] h = refl
      empty (x ∷ xs) h = absurd (omega arith)

      nothing_left : drop 4 rest ≡ []
      nothing_left = empty (drop 4 rest) (omega (arith, length-drop 4 rest, length-rest))

  rest-crc : crc32 (at (body (message f))) ≡ get_le32 rest
  rest-crc = ap (λ (l : List ℕ). crc32 (at l)) (sym cut_body) ∙ a.crc_ok ∙ ap get_le32 cut_rest
    where
      cut_body : take (12 + f.payload_length) bytes ≡ body (message f)
      cut_body =
          ap (take (12 + f.payload_length)) bytes-body
          ∙ take-append (body (message f)) rest (12 + f.payload_length) (sym length-body_read)

      cut_rest : drop (12 + f.payload_length) bytes ≡ rest
      cut_rest =
          ap (drop (12 + f.payload_length)) bytes-body
          ∙ drop-append (body (message f)) rest (12 + f.payload_length) (sym length-body_read)

  accepted-wire : bytes ≡ wire (message f)
  unfolding wire
  accepted-wire = rw (rest-crc, rest-stored) bytes-body

  payload-AreBytes : AreBytes payload
  unfolding payload
  payload-AreBytes = take-AreBytes f.payload_length (drop 12 bytes) (drop-AreBytes 12 bytes b)

  accepted-IsFrame : IsFrame f
  accepted-IsFrame = record {
    array = ap length a.payload_is ∙ length-overwrite g.payload _ ∙ array;
    fits = a.limit_ok;
    says = record {
      type_byte = rw (a.type_is) (byte_at-lt bytes 3 b);
      flags_byte = rw (a.flags_are) (byte_at-lt bytes 4 b);
      sequence_word = rw (a.sequence_is) (get_le32-lt (drop 6 bytes) (drop-AreBytes 6 bytes b));
      payload_fits = rw message-payload (omega (arith, length-payload, a.limit_ok));
      payload_bytes = rw message-payload payload-AreBytes;
    };
  }

-- Whatever `devmgr_frame_decode` accepts is a well-formed frame, and its bytes are exactly the
-- wire bytes of what that frame says.
pub decode_canonical :
    (bytes : List ℕ) (g f : Frame)
    → AreBytes bytes
    → length g.payload ≡ max_payload
    → decode bytes g ≡ (ok, f)
    → IsFrame f × (bytes ≡ wire (message f))
decode_canonical bytes g f b array e =
    let a = decode-Accepts bytes g f e in
    (accepted-IsFrame bytes g f a b array, accepted-wire bytes g f a b array)
