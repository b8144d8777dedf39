-- ===== src/Ipc/RoundTrip/Wire.antt =====
-- The bytes of the messages of ipc.c: what the encoders write, and how the decoders read them.
use linux_device_manager.Base.{
  ℕ, ◌+◌, ◌≤◌, ◌≡◌, refl, arith, List, ◌∷◌, ◌++◌, length, take, drop, overwrite, memcpy,
  memcpy_then, length-take, take-length, ℤ, u32_of_int, IsInt32, int_of_u32-u32_of_int,
  u32_of_int-lt,
}
use linux_device_manager.Status.{ok}
use linux_device_manager.Protocol.Le.{
  byte_at, put_le16, put_le32, get_le16, get_le32, get_le32-put_le32,
}
use linux_device_manager.Ipc.Codec.{
  magic, version, max_payload, Request, Response, validate_header, request_body, decode_request,
  response_body, decode_response,
}

-- A request whose array has its 4096 bytes and whose length is in range.
pub record IsRequest (r : Request) : Type 0 where
  pub array : length r.payload ≡ max_payload
  pub fits : r.payload_length ≤ max_payload

pub record IsResponse (r : Response) : Type 0 where
  pub array : length r.payload ≡ max_payload
  pub fits : r.payload_length ≤ max_payload
  pub status_word : IsInt32 r.status

-- The bytes of a request, and of a response.
pub request_wire : ℕ → List ℕ → List ℕ
request_wire command payload =
    put_le16 magic ++ (version ∷ command ∷ (put_le32 (length payload) ++ payload))

pub response_wire : ℕ → ℤ → List ℕ → List ℕ
response_wire command status payload =
    put_le16 magic
    ++ (version
        ∷ command
        ∷ (put_le32 (u32_of_int status) ++ (put_le32 (length payload) ++ payload)))

pub length-request_wire : (c : ℕ) (p : List ℕ) → length (request_wire c p) ≡ 8 + length p
unfolding request_wire put_le16 put_le32
length-request_wire c p = omega arith

pub length-response_wire :
    (c : ℕ) (z : ℤ) (p : List ℕ) → length (response_wire c z p) ≡ 12 + length p
unfolding response_wire put_le16 put_le32
length-response_wire c z p = omega arith

-- The bytes of the payload array that a message uses.
pub used :
    (payload : List ℕ) (n : ℕ)
    → length payload ≡ max_payload
    → n ≤ max_payload
    → length (take n payload) ≡ n
used payload n e h = omega (arith, length-take n payload)

pub request_body_lem :
    (r : Request) (out : List ℕ)
    → IsRequest r
    → request_body r out ≡ overwrite out (request_wire r.command (take r.payload_length r.payload))
unfolding request_body request_wire put_le16 put_le32 memcpy
request_body_lem r out v =
    rw
      (
        used r.payload r.payload_length v.array v.fits,
        memcpy_then out 0 _ _ 2 refl,
        memcpy_then out 0 _ _ 3 refl,
        memcpy_then out 0 _ _ 4 refl,
        memcpy_then out 0 _ _ 8 refl,
      )
      refl

pub response_body_lem :
    (r : Response) (out : List ℕ)
    → IsResponse r
    → response_body r out
      ≡ overwrite out (response_wire r.command r.status (take r.payload_length r.payload))
unfolding response_body response_wire put_le16 put_le32 memcpy
response_body_lem r out v =
    rw
      (
        used r.payload r.payload_length v.array v.fits,
        memcpy_then out 0 _ _ 2 refl,
        memcpy_then out 0 _ _ 3 refl,
        memcpy_then out 0 _ _ 4 refl,
        memcpy_then out 0 _ _ 8 refl,
        memcpy_then out 0 _ _ 12 refl,
      )
      refl

-- Decoding the bytes of a request gives its command and payload.
module _ (c : ℕ) (p : List ℕ) (fits : length p ≤ max_payload) where
  request_header_ok : validate_header (request_wire c p) 8 ≡ ok
  unfolding validate_header request_wire put_le16 put_le32 get_le16
  request_header_ok = ground arith

  pub request_length : get_le32 (drop 4 (request_wire c p)) ≡ length p
  unfolding request_wire put_le16 put_le32
  request_length = get_le32-put_le32 (length p) p (omega (arith, fits))

  request_rest : (byte_at (request_wire c p) 3 ≡ c) × (drop 8 (request_wire c p) ≡ p)
  unfolding request_wire put_le16 put_le32
  request_rest = (refl, refl)

  pub decode_request-wire :
      (g : Request)
      → decode_request (request_wire c p) g
        ≡ (ok, record { command = c; payload_length = length p; payload = overwrite g.payload p })
  unfolding decode_request
  decode_request-wire g =
      rw
        (
          request_header_ok,
          request_length,
          length-request_wire c p,
          request_rest.0,
          request_rest.1,
          take-length (length p) p (omega arith),
        )
        (ground (arith, fits))

module _ (c : ℕ) (z : ℤ) (p : List ℕ) (fits : length p ≤ max_payload) (word : IsInt32 z) where
  response_header_ok : validate_header (response_wire c z p) 12 ≡ ok
  unfolding validate_header response_wire put_le16 put_le32 get_le16
  response_header_ok = ground arith

  response_status : get_le32 (drop 4 (response_wire c z p)) ≡ u32_of_int z
  unfolding response_wire put_le16 put_le32
  response_status = get_le32-put_le32 (u32_of_int z) _ (u32_of_int-lt z)

  response_length : get_le32 (drop 8 (response_wire c z p)) ≡ length p
  unfolding response_wire put_le16 put_le32
  response_length = get_le32-put_le32 (length p) p (omega (arith, fits))

  response_rest : (byte_at (response_wire c z p) 3 ≡ c) × (drop 12 (response_wire c z p) ≡ p)
  unfolding response_wire put_le16 put_le32
  response_rest = (refl, refl)

  pub decode_response-wire :
      (g : Response)
      → decode_response (response_wire c z p) g ≡ (
        ok,
        record {
          command = c;
          status = z;
          payload_length = length p;
          payload = overwrite g.payload p;
        },
      )
  unfolding decode_response
  decode_response-wire g =
      rw
        (
          response_header_ok,
          response_status,
          response_length,
          length-response_wire c z p,
          response_rest.0,
          response_rest.1,
          take-length (length p) p (omega arith),
          int_of_u32-u32_of_int z word,
        )
        (ground (arith, fits))
