-- ===== src/Tests/Ipcs.antt =====
-- src/ipc/codec.c on a request and a response of two bytes.
use linux_device_manager.Base.{ℕ, ◌≡◌, arith, ◌∷◌, take, replicate, length-replicate, negsuc}
use linux_device_manager.Status.{ok}
use linux_device_manager.Ipc.Codec.{
  Request, Response, encode_request, decode_request, encode_response, decode_response,
}
use linux_device_manager.Ipc.RoundTrip.{
  IsRequest, IsResponse, decode-encode_request, decode-encode_response,
}

abbrev asked : Request
asked = record { command = 240; payload_length = 2; payload = 7 ∷ 8 ∷ replicate 4094 0 }

abbrev answered : Response
answered = record {
  command = 240;
  status = negsuc 4;
  payload_length = 2;
  payload = 7 ∷ 8 ∷ replicate 4094 0;
}

asked-IsRequest : IsRequest asked
asked-IsRequest = ground (arith, length-replicate {A = ℕ} 4094 0)

answered-IsResponse : IsResponse answered
answered-IsResponse = ground (arith, length-replicate {A = ℕ} 4094 0)

decode-encode_request_example :
    let e = encode_request asked (replicate 20 0) 0 in
    let (status, r') = decode_request (take e.encoded_length e.output) asked in
    (e.status ≡ ok)
    × (status ≡ ok)
    × (r'.command ≡ 240)
    × (r'.payload_length ≡ 2)
    × (take r'.payload_length r'.payload ≡ take 2 asked.payload)
decode-encode_request_example =
    decode-encode_request asked asked (replicate 20 0) 0 asked-IsRequest asked-IsRequest.array
      (omega (arith, length-replicate {A = ℕ} 20 0))

decode-encode_response_example :
    let e = encode_response answered (replicate 20 0) 0 in
    let (status, r') = decode_response (take e.encoded_length e.output) answered in
    (e.status ≡ ok)
    × (status ≡ ok)
    × (r'.command ≡ 240)
    × (r'.status ≡ negsuc 4)
    × (r'.payload_length ≡ 2)
    × (take r'.payload_length r'.payload ≡ take 2 answered.payload)
decode-encode_response_example =
    decode-encode_response answered answered (replicate 20 0) 0 answered-IsResponse
      answered-IsResponse.array (omega (arith, length-replicate {A = ℕ} 20 0))
