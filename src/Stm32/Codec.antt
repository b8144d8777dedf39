-- ===== src/Stm32/Codec.antt =====
-- firmware/stm32f103/common/protocol.h and protocol.c: the device's frame codec.
pub mod Agrees
use Prim.Native.Nat.{bit_xor}
use linux_device_manager.Base.{
  ℕ, ◌+◌, ◌*◌, ◌/◌, ◌%◌, ◌^◌, zero, suc, Bool, true, false, List, [], ◌∷◌, ◌||◌, ltb, ◌==◌, ◌!=◌,
  if◌then◌else◌, length, take, drop, memcpy, u8, ℤ, pos, negsuc,
}
use linux_device_manager.Span.{Span, span_length, null, at}
use linux_device_manager.Crc.{shift_bits}
use linux_device_manager.Protocol.Le.{byte_at}

-- `STM32_DEVMGR_MAGIC`
abbrev pub magic : ℕ
magic = 0x4d44

-- `STM32_DEVMGR_VERSION`
abbrev pub version : ℕ
version = 1

-- `STM32_DEVMGR_HEADER_SIZE`
abbrev pub header_size : ℕ
header_size = 12

-- `STM32_DEVMGR_CRC_SIZE`
abbrev pub crc_size : ℕ
crc_size = 4

-- `STM32_DEVMGR_MAX_PAYLOAD`
abbrev pub max_payload : ℕ
max_payload = 4096

-- `STM32_FRAME_RESPONSE`
abbrev pub frame_response : ℕ
frame_response = 1

-- The message types, `STM32_MSG_PING` to `STM32_MSG_NACK`.
abbrev pub stm32_msg_ping : ℕ
stm32_msg_ping = 0x01

abbrev pub stm32_msg_get_info : ℕ
stm32_msg_get_info = 0x02

abbrev pub stm32_msg_enter_bootloader : ℕ
stm32_msg_enter_bootloader = 0x10

abbrev pub stm32_msg_fw_begin : ℕ
stm32_msg_fw_begin = 0x11

abbrev pub stm32_msg_fw_data : ℕ
stm32_msg_fw_data = 0x12

abbrev pub stm32_msg_fw_status : ℕ
stm32_msg_fw_status = 0x13

abbrev pub stm32_msg_fw_end : ℕ
stm32_msg_fw_end = 0x14

abbrev pub stm32_msg_fw_verify : ℕ
stm32_msg_fw_verify = 0x15

abbrev pub stm32_msg_fw_activate : ℕ
stm32_msg_fw_activate = 0x16

abbrev pub stm32_msg_reboot : ℕ
stm32_msg_reboot = 0x17

abbrev pub stm32_msg_nack : ℕ
stm32_msg_nack = 0x81

-- `struct stm32_frame_view`; `payload` is what the pointer points at, to the end of its buffer.
pub record View : Type 0 where
  pub type : ℕ  -- uint8_t
  pub flags : ℕ  -- uint8_t
  pub sequence : ℕ  -- uint32_t
  pub payload : List ℕ
  pub payload_length : ℕ  -- uint16_t

-- `stm32_put_le16`
unfoldable pub put_le16 : ℕ → List ℕ
put_le16 v = u8 v ∷ u8 (v / 256) ∷ []

-- `stm32_put_le32`
unfoldable pub put_le32 : ℕ → List ℕ
put_le32 v = u8 v ∷ u8 (v / 2 ^ 8) ∷ u8 (v / 2 ^ 16) ∷ u8 (v / 2 ^ 24) ∷ []

-- `stm32_get_le16`
unfoldable pub get_le16 : List ℕ → ℕ
get_le16 bytes = byte_at bytes 0 + byte_at bytes 1 * 2 ^ 8

-- `stm32_get_le32`
unfoldable pub get_le32 : List ℕ → ℕ
get_le32 bytes =
    byte_at bytes 0 + byte_at bytes 1 * 2 ^ 8 + byte_at bytes 2 * 2 ^ 16 + byte_at bytes 3 * 2 ^ 24

-- The outer loop of `stm32_crc32`; its inner loop is that of src/common/crc32.c.
unfoldable pub crc_loop : ℕ → List ℕ → ℕ
crc_loop crc [] = crc
crc_loop crc (x ∷ xs) = crc_loop (shift_bits 8 (bit_xor crc x)) xs

-- `stm32_crc32`
unfoldable pub crc32 : List ℕ → ℕ
crc32 bytes = bit_xor (crc_loop 0xffff_ffff bytes) 0xffff_ffff

-- `stm32_frame_decode` on the bytes `data[0 .. length)`, with `*frame` before and after.
unfoldable pub decode : List ℕ → View → ℤ × View
decode bytes frame =
    let payload_length = get_le16 (drop 10 bytes) in
    let expected = get_le32 (drop (header_size + payload_length) bytes) in
    let actual = crc32 (take (header_size + payload_length) bytes) in
    if ltb (length bytes) (header_size + crc_size)
    then (negsuc 0, frame)
    else if get_le16 bytes != magic || (byte_at bytes 2 != version || byte_at bytes 5 != 0)
    then (negsuc 1, frame)
    else if ltb max_payload payload_length
        || length bytes != header_size + payload_length + crc_size
    then (negsuc 2, frame)
    else if actual != expected
    then (negsuc 3, frame)
    else (
      pos 0,
      record {
        type = byte_at bytes 3;
        flags = byte_at bytes 4;
        sequence = get_le32 (drop 6 bytes);
        payload = drop header_size bytes;
        payload_length = payload_length;
      },
    )

-- What `encode` leaves: the result, the output buffer and `*encoded_length`.
pub record Encoded : Type 0 where
  pub result : ℤ
  pub output : List ℕ
  pub encoded_length : ℕ

-- The `memcpy` of the payload, which is skipped for the length 0.
payload_copied : List ℕ → Span → List ℕ
payload_copied output (null n) = output
payload_copied output (at []) = output
payload_copied output (at (x ∷ xs)) = memcpy output header_size (x ∷ xs)

-- `payload == NULL && payload_length != 0U`
missing : Span → Bool
missing (null zero) = false
missing (null (suc n)) = true
missing (at xs) = false

-- The stores of `encode`, in order, up to the CRC.
unfoldable pub encode_body : ℕ → ℕ → ℕ → Span → List ℕ → List ℕ
unfolding payload_copied
encode_body type flags sequence payload output =
    let output1 = memcpy output 0 (put_le16 magic) in
    let output2 = memcpy output1 2 (version ∷ []) in
    let output3 = memcpy output2 3 (type ∷ []) in
    let output4 = memcpy output3 4 (flags ∷ []) in
    let output5 = memcpy output4 5 (0 ∷ []) in
    let output6 = memcpy output5 6 (put_le32 sequence) in
    let output7 = memcpy output6 10 (put_le16 (span_length payload)) in
    payload_copied output7 payload

-- `stm32_frame_encode`; the span is `payload` with `payload_length`, and `capacity` the length of
-- `output`.
unfoldable pub encode : ℕ → ℕ → ℕ → Span → List ℕ → ℕ → Encoded
unfolding missing
encode type flags sequence payload output encoded_length =
    let n = span_length payload in
    let total = header_size + n + crc_size in
    let body = encode_body type flags sequence payload output in
    let value = crc32 (take (header_size + n) body) in
    if missing payload || (ltb max_payload n || ltb (length output) total)
    then record { result = negsuc 0; output = output; encoded_length = encoded_length }
    else record {
      result = pos 0;
      output = memcpy body (header_size + n) (put_le32 value);
      encoded_length = total;
    }
