-- ===== src/Ipc/RoundTrip.antt =====
-- The decoders undo the encoders.
pub mod Wire
pub use linux_device_manager.Ipc.RoundTrip.Wire.{IsRequest, IsResponse}
use linux_device_manager.Ipc.RoundTrip.Wire.{
  request_wire, response_wire, length-request_wire, length-response_wire, used, request_body_lem,
  response_body_lem, request_length, decode_request-wire, decode_response-wire,
}
use linux_device_manager.Base.{
  ℕ, ◌+◌, ◌≤◌, ◌≡◌, refl, sym, ◌∙◌, arith, List, length, take, drop, overwrite, take-overwrite,
  le→ltb,
}
use linux_device_manager.Status.{ok}
use linux_device_manager.Protocol.Le.{get_le32}
use linux_device_manager.Ipc.Codec.{
  max_payload, Request, Response, encode_request, decode_request, encode_response, decode_response,
}

-- The bytes of a request that was encoded, as a decoder finds them.
pub encoded_request_lem :
    (r g : Request) (out : List ℕ) (n : ℕ)
    → IsRequest r
    → length g.payload ≡ max_payload
    → 8 + r.payload_length ≤ length out
    → let e = encode_request r out n in
      let w = take e.encoded_length e.output in
      let p = take r.payload_length r.payload in
      (length w ≡ 8 + r.payload_length)
      × (get_le32 (drop 4 w) ≡ r.payload_length)
      × (decode_request w g ≡ (
        ok,
        record {
          command = r.command;
          payload_length = r.payload_length;
          payload = overwrite g.payload p;
        },
      ))
unfolding encode_request
encoded_request_lem r g out n v full room =
    let p = take r.payload_length r.payload in
    let size : length p ≡ r.payload_length = used r.payload r.payload_length v.array v.fits in
    let whole = length-request_wire r.command p in
    let fits : length p ≤ max_payload = omega (arith, size, v.fits) in
    let said = request_length r.command p fits in
    let decoded = decode_request-wire r.command p fits g in
    rw
      (
        le→ltb max_payload r.payload_length v.fits,
        le→ltb (length out) (8 + r.payload_length) room,
        request_body_lem r out v,
        take-overwrite out (request_wire r.command p) (8 + r.payload_length)
            (omega (arith, whole, size)) (omega (arith, whole, size)),
      )
      (omega (arith, whole, size), said ∙ size, rw size at decoded)

-- `devmgr_ipc_decode_request` undoes `devmgr_ipc_encode_request`: into a buffer with room,
-- encoding succeeds, and decoding what it wrote gives the command, the length and the payload.
pub decode-encode_request :
    (r g : Request) (out : List ℕ) (n : ℕ)
    → IsRequest r
    → length g.payload ≡ max_payload
    → 8 + r.payload_length ≤ length out
    → let e = encode_request r out n in
      let (status, r') = decode_request (take e.encoded_length e.output) g in
      (e.status ≡ ok)
      × (status ≡ ok)
      × (r'.command ≡ r.command)
      × (r'.payload_length ≡ r.payload_length)
      × (take r'.payload_length r'.payload ≡ take r.payload_length r.payload)
unfolding encode_request
decode-encode_request r g out n v full room =
    let p = take r.payload_length r.payload in
    let size : length p ≡ r.payload_length = used r.payload r.payload_length v.array v.fits in
    rw
      (
        le→ltb max_payload r.payload_length v.fits,
        le→ltb (length out) (8 + r.payload_length) room,
        request_body_lem r out v,
        take-overwrite out (request_wire r.command p) (8 + r.payload_length)
            (omega (arith, length-request_wire r.command p, size))
            (omega (arith, length-request_wire r.command p, size)),
        decode_request-wire r.command p (omega (arith, size, v.fits)) g,
      )
      (
        refl,
        refl,
        refl,
        size,
        take-overwrite g.payload p (length p) refl (omega (arith, size, v.fits)),
      )

-- `devmgr_ipc_decode_response` undoes `devmgr_ipc_encode_response`, for every `int32_t` status.
pub decode-encode_response :
    (r g : Response) (out : List ℕ) (n : ℕ)
    → IsResponse r
    → length g.payload ≡ max_payload
    → 12 + r.payload_length ≤ length out
    → let e = encode_response r out n in
      let (status, r') = decode_response (take e.encoded_length e.output) g in
      (e.status ≡ ok)
      × (status ≡ ok)
      × (r'.command ≡ r.command)
      × (r'.status ≡ r.status)
      × (r'.payload_length ≡ r.payload_length)
      × (take r'.payload_length r'.payload ≡ take r.payload_length r.payload)
unfolding encode_response
decode-encode_response r g out n v full room =
    let p = take r.payload_length r.payload in
    let size : length p ≡ r.payload_length = used r.payload r.payload_length v.array v.fits in
    let total : length (response_wire r.command r.status p) ≡ 12 + r.payload_length =
      omega (arith, length-response_wire r.command r.status p, size) in
    rw
      (
        le→ltb max_payload r.payload_length v.fits,
        le→ltb (length out) (12 + r.payload_length) room,
        response_body_lem r out v,
        take-overwrite out (response_wire r.command r.status p) (12 + r.payload_length) (sym total)
            (omega (arith, total)),
        decode_response-wire r.command r.status p (omega (arith, size, v.fits)) v.status_word g,
      )
      (
        refl,
        refl,
        refl,
        refl,
        size,
        take-overwrite g.payload p (length p) refl (omega (arith, size, v.fits)),
      )
