-- ===== src/Daemon/Output/Responses.antt =====
-- A response goes out to its client, in whatever pieces.
use linux_device_manager.Base.{
  ℕ, ◌+◌, ◌≤◌, ◌≡◌, refl, ap, ◌∙◌, arith, true, ltb, some, List, take, length, overwrite, replicate,
  length-replicate, take-overwrite, IsInt32, length-overwrite,
}
use linux_device_manager.Status.{Status, ok, code}
use linux_device_manager.Ipc.Codec.{Response, encode_response, decode_response}
use linux_device_manager.Ipc.RoundTrip.{IsResponse, decode-encode_response}
use linux_device_manager.Daemon.State.{
  Client, Daemon, Surroundings, client_at, responded, queue_client_response,
}
use linux_device_manager.Daemon.Served.Answering.{encode_response_lem}
use linux_device_manager.Daemon.Input.{put_client}
use linux_device_manager.Daemon.Served.{client_at-changed_self}
use linux_device_manager.Daemon.Output.Outgoing.{total, sent_out, IsClosedAt, sent_out_lem}

code-IsInt32 : (s : Status) → IsInt32 (code s)
code-IsInt32 s = ground arith

-- The response in the client's output.
queued_lem :
    (e : Surroundings) (d : Daemon) (index command : ℕ) (verdict : Status) (payload : List ℕ)
    (c : Client)
    → client_at d.clients index ≡ some c
    → (queue_client_response e d index command verdict payload).1
      ≡ put_client d index (responded c command verdict payload).1
unfolding queue_client_response
queued_lem e d index command verdict payload c found = ground (arith, found)

module _ (c : Client) (command : ℕ) (verdict : Status) (payload : List ℕ)
    (array : length c.output ≡ 4108) (short : length payload ≤ 4096) where
  abbrev response : Response
  response = record {
    command = command;
    status = code verdict;
    payload_length = length payload;
    payload = overwrite (replicate 4096 0) payload;
  }

  response-IsResponse : IsResponse response
  response-IsResponse = record {
    array = length-overwrite (replicate 4096 0) payload ∙ length-replicate {A = ℕ} 4096 0;
    fits = short;
    status_word = code-IsInt32 verdict;
  }

  responded_output :
      let e = encode_response response c.output c.output_size in
      (responded c command verdict payload).1 ≡ record c {
        output = e.output;
        output_size = 12 + length payload;
        output_offset = 0;
        close_after_write = true;
      }
  unfolding responded
  responded_output =
      let fits : ltb (length payload) 4097 ≡ true = ground (arith, short) in
      let (fine, size, total) = encode_response_lem response c.output c.output_size short array in
      let e = encode_response response c.output c.output_size in
      rw (fits, fine)
        (ap
          (λ (n : ℕ). record c {
            output = e.output;
            output_size = n;
            output_offset = 0;
            close_after_write = true;
          })
          total)

-- A response that `queue_client_response` has queued for an open client, with a payload within the
-- limit, goes out whole, however many calls of `handle_client_output` and of `write` it takes: each
-- call of `handle_client_output` writes pieces of any sizes up to EAGAIN, the next one goes on where
-- it stopped, and no `write` fails. When as many pieces are written as the response has bytes, what
-- the client reads decodes to the command, the status and the payload that were queued, and its
-- connection is closed.
pub response_arrives :
    (e : Surroundings) (d : Daemon) (index command : ℕ) (verdict : Status) (payload : List ℕ)
    (c : Client) (g : Response) (calls : List (List ℕ))
    → client_at d.clients index ≡ some c
    → c.is_open ≡ true
    → length c.output ≡ 4108
    → length payload ≤ 4096
    → length g.payload ≡ 4096
    → 12 + length payload ≤ total calls
    → let queued = (queue_client_response e d index command verdict payload).1 in
      let (bytes, d') = sent_out queued index calls in
      let (status, response) = decode_response bytes g in
      (status ≡ ok)
      × (response.command ≡ command)
      × (response.status ≡ code verdict)
      × (response.payload_length ≡ length payload)
      × (take response.payload_length response.payload ≡ payload)
      × IsClosedAt d' index
response_arrives e d index command verdict payload c g calls found opened array short room enough =
    let r = response c command verdict payload array short in
    let encoded = encode_response r c.output c.output_size in
    let c' = record c {
      output = encoded.output;
      output_size = 12 + length payload;
      output_offset = 0;
      close_after_write = true;
    } in
    let d' = put_client d index c' in
    let here = client_at-changed_self (λ (old : Client). c') index d.clients c found in
    let (bytes, closed) =
      sent_out_lem index calls d' c' (12 + length payload) here opened refl (omega arith)
        (omega arith) enough in
    let (fine, size, whole) = encode_response_lem r c.output c.output_size short array in
    let decoded =
      decode-encode_response r g c.output c.output_size
        (response-IsResponse c command verdict payload array short) room (omega (arith, array)) in
    let (encodes, decodes, same_command, same_status, same_length, same_payload) =
      rw whole at decoded in
    let kept : take (length payload) (overwrite (replicate 4096 0) payload) ≡ payload =
      take-overwrite (replicate 4096 0) payload (length payload) refl
        (omega (arith, length-replicate {A = ℕ} 4096 0)) in
    rw
      (
        queued_lem e d index command verdict payload c found,
        responded_output c command verdict payload array short,
        bytes,
      )
      (decodes, same_command, same_status, same_length, same_payload ∙ kept, closed)
