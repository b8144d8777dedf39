-- ===== src/Protocol/Frame.antt =====
-- `struct devmgr_frame`, `devmgr_frame_encode` and `devmgr_frame_decode` of src/protocol/frame.c.
pub mod Wire
pub mod RoundTrip
pub mod Canonical
pub mod Corruption
pub mod Reads
use linux_device_manager.Base.{
  ℕ, ◌+◌, List, [], ◌∷◌, ◌||◌, ltb, ◌!=◌, if◌then◌else◌, length, take, drop, overwrite, memcpy,
}
use linux_device_manager.Status.{Status, ok, invalid, overflow, protocol, limit, crc}
use linux_device_manager.Span.{at}
use linux_device_manager.Crc.{crc32}
use linux_device_manager.Protocol.Constants.{magic, version, header_size, crc_size, max_payload}
use linux_device_manager.Protocol.Le.{byte_at, put_le16, put_le32, get_le16, get_le32}

-- `struct devmgr_frame`; `payload` is the whole array of 4096 bytes.
pub record Frame : Type 0 where
  pub type : ℕ  -- uint8_t
  pub flags : ℕ  -- uint8_t
  pub sequence : ℕ  -- uint32_t
  pub payload_length : ℕ  -- uint16_t
  pub payload : List ℕ

-- What `encode` leaves: the status, the output buffer and `*encoded_length`.
pub record Encoded : Type 0 where
  pub status : Status
  pub output : List ℕ
  pub encoded_length : ℕ

-- The stores that follow the checks, in order, up to the CRC.
unfoldable pub encode_body : Frame → List ℕ → List ℕ
encode_body frame output =
    let output1 = memcpy output 0 (put_le16 magic) in
    let output2 = memcpy output1 2 (version ∷ []) in
    let output3 = memcpy output2 3 (frame.type ∷ []) in
    let output4 = memcpy output3 4 (frame.flags ∷ []) in
    let output5 = memcpy output4 5 (0 ∷ []) in
    let output6 = memcpy output5 6 (put_le32 frame.sequence) in
    let output7 = memcpy output6 10 (put_le16 frame.payload_length) in
    memcpy output7 header_size (take frame.payload_length frame.payload)

-- `devmgr_frame_encode`; `capacity` is the size of the buffer `output`, and `encoded_length` what
-- `*encoded_length` holds before the call.
unfoldable pub encode : Frame → List ℕ → ℕ → Encoded
encode frame output encoded_length =
    let frame_length = header_size + frame.payload_length + crc_size in
    let body = encode_body frame output in
    let value = crc32 (at (take (header_size + frame.payload_length) body)) in
    if ltb max_payload frame.payload_length
    then record { status = invalid; output = output; encoded_length = encoded_length }
    else if ltb (length output) frame_length
    then record { status = overflow; output = output; encoded_length = encoded_length }
    else record {
      status = ok;
      output = memcpy body (header_size + frame.payload_length) (put_le32 value);
      encoded_length = frame_length;
    }

-- `devmgr_frame_decode` on the bytes `data[0 .. length)`, with `*frame` before and after.
unfoldable pub decode : List ℕ → Frame → Status × Frame
decode bytes frame =
    let payload_length = get_le16 (drop 10 bytes) in
    let expected_length = header_size + payload_length + crc_size in
    let expected_crc = get_le32 (drop (header_size + payload_length) bytes) in
    let actual_crc = crc32 (at (take (header_size + payload_length) bytes)) in
    if ltb (length bytes) (header_size + crc_size)
    then (invalid, frame)
    else if get_le16 bytes != magic || (byte_at bytes 2 != version || byte_at bytes 5 != 0)
    then (protocol, frame)
    else if ltb max_payload payload_length
    then (limit, frame)
    else if length bytes != expected_length
    then (invalid, frame)
    else if actual_crc != expected_crc
    then (crc, frame)
    else (
      ok,
      record {
        type = byte_at bytes 3;
        flags = byte_at bytes 4;
        sequence = get_le32 (drop 6 bytes);
        payload_length = payload_length;
        payload = overwrite frame.payload (take payload_length (drop header_size bytes));
      },
    )
