-- ===== src/Ipc/Codec.antt =====
-- The messages and the four codec functions. A pointer and capacity of an output buffer are the
-- buffer; a `data` and `length` pair is the list of those bytes.
use linux_device_manager.Base.{
  ℕ, ◌+◌, List, [], ◌∷◌, ◌||◌, ltb, ◌!=◌, if◌then◌else◌, length, take, drop, overwrite, memcpy, ℤ,
  u32_of_int, int_of_u32,
}
use linux_device_manager.Status.{Status, ok, invalid, overflow, protocol, limit, is_ok}
use linux_device_manager.Protocol.Le.{byte_at, put_le16, put_le32, get_le16, get_le32}

abbrev pub magic : ℕ
magic = 0x5049

abbrev pub version : ℕ
version = 1

abbrev request_header_size : ℕ
request_header_size = 8

abbrev response_header_size : ℕ
response_header_size = 12

abbrev pub max_payload : ℕ
max_payload = 4096

-- `struct devmgr_ipc_request`; `payload` is the whole array of 4096 bytes.
pub record Request : Type 0 where
  pub command : ℕ  -- uint8_t
  pub payload_length : ℕ  -- uint32_t
  pub payload : List ℕ

-- `struct devmgr_ipc_response`
pub record Response : Type 0 where
  pub command : ℕ  -- uint8_t
  pub status : ℤ  -- int32_t
  pub payload_length : ℕ  -- uint32_t
  pub payload : List ℕ

-- What an encoder leaves: its status, the output buffer and `*encoded_length`.
pub record Encoded : Type 0 where
  pub status : Status
  pub output : List ℕ
  pub encoded_length : ℕ

-- `validate_header`
unfoldable pub validate_header : List ℕ → ℕ → Status
validate_header bytes header_size =
    if ltb (length bytes) header_size
    then invalid
    else if get_le16 bytes != magic || byte_at bytes 2 != version
    then protocol
    else ok

-- The stores of `devmgr_ipc_encode_request`.
unfoldable pub request_body : Request → List ℕ → List ℕ
request_body request output =
    let output1 = memcpy output 0 (put_le16 magic) in
    let output2 = memcpy output1 2 (version ∷ []) in
    let output3 = memcpy output2 3 (request.command ∷ []) in
    let output4 = memcpy output3 4 (put_le32 request.payload_length) in
    memcpy output4 request_header_size (take request.payload_length request.payload)

-- `devmgr_ipc_encode_request`
unfoldable pub encode_request : Request → List ℕ → ℕ → Encoded
encode_request request output encoded_length =
    let total = request_header_size + request.payload_length in
    if ltb max_payload request.payload_length
    then record { status = invalid; output = output; encoded_length = encoded_length }
    else if ltb (length output) total
    then record { status = overflow; output = output; encoded_length = encoded_length }
    else record { status = ok; output = request_body request output; encoded_length = total }

-- `devmgr_ipc_decode_request`, with `*request` before and after.
unfoldable pub decode_request : List ℕ → Request → Status × Request
decode_request bytes request =
    let result = validate_header bytes request_header_size in
    let payload_length = get_le32 (drop 4 bytes) in
    if is_ok result
    then if ltb max_payload payload_length
      then (limit, request)
      else if length bytes != request_header_size + payload_length
      then (invalid, request)
      else (
        ok,
        record {
          command = byte_at bytes 3;
          payload_length = payload_length;
          payload =
              overwrite request.payload (take payload_length (drop request_header_size bytes));
        },
      )
    else (result, request)

-- The stores of `devmgr_ipc_encode_response`.
unfoldable pub response_body : Response → List ℕ → List ℕ
response_body response output =
    let output1 = memcpy output 0 (put_le16 magic) in
    let output2 = memcpy output1 2 (version ∷ []) in
    let output3 = memcpy output2 3 (response.command ∷ []) in
    let output4 = memcpy output3 4 (put_le32 (u32_of_int response.status)) in
    let output5 = memcpy output4 8 (put_le32 response.payload_length) in
    memcpy output5 response_header_size (take response.payload_length response.payload)

-- `devmgr_ipc_encode_response`
unfoldable pub encode_response : Response → List ℕ → ℕ → Encoded
encode_response response output encoded_length =
    let total = response_header_size + response.payload_length in
    if ltb max_payload response.payload_length
    then record { status = invalid; output = output; encoded_length = encoded_length }
    else if ltb (length output) total
    then record { status = overflow; output = output; encoded_length = encoded_length }
    else record { status = ok; output = response_body response output; encoded_length = total }

-- `devmgr_ipc_decode_response`, with `*response` before and after.
unfoldable pub decode_response : List ℕ → Response → Status × Response
decode_response bytes response =
    let result = validate_header bytes response_header_size in
    let payload_length = get_le32 (drop 8 bytes) in
    if is_ok result
    then if ltb max_payload payload_length
      then (limit, response)
      else if length bytes != response_header_size + payload_length
      then (invalid, response)
      else (
        ok,
        record {
          command = byte_at bytes 3;
          status = int_of_u32 (get_le32 (drop 4 bytes));
          payload_length = payload_length;
          payload =
              overwrite response.payload (take payload_length (drop response_header_size bytes));
        },
      )
    else (result, response)
