-- ===== src/Daemon/Input.antt =====
-- apps/devmgrd/daemon.c: what a client sends.
pub mod Arriving
pub mod Requests
use linux_device_manager.Base.{
  ℕ, ◌+◌, ◌-◌, Bool, not, Option, none, some, List, [], ◌∷◌, ◌&&◌, ◌==◌, ◌!=◌, ltb, leb,
  if◌then◌else◌, length, take, drop, memcpy, replicate,
}
use linux_device_manager.Status.{Status, ok, limit, is_ok}
use linux_device_manager.Protocol.Le.{get_le32}
use linux_device_manager.Ipc.Codec.{Request, decode_request}
use linux_device_manager.Daemon.State.{
  Client, Daemon, Surroundings, changed, client_at, queue_client_response, close_client,
}
use linux_device_manager.Daemon.Clients.{start_request}
use linux_device_manager.Daemon.Calls.{Receipt, gives}

-- `clients[index]` with what is stored there.
abbrev pub put_client : Daemon → ℕ → Client → Daemon
put_client d index c = record d { clients = changed (λ (old : Client). c) index d.clients }

-- The local `request` before it is decoded, of which no byte is read that was not written.
abbrev pub blank_request : Request
blank_request = record { command = 0; payload_length = 0; payload = replicate 4096 0 }

-- The bytes that `read` gives, in the client's buffer.
abbrev pub taken_in : Client → List ℕ → Client
taken_in c bytes = record c {
  input = memcpy c.input c.input_size bytes;
  input_size = c.input_size + length bytes;
}

-- Whether the header is there and was not read yet; its length; the client with the size of its
-- request; and whether the request is whole.
abbrev pub header_due : Client → Bool
header_due c = leb 8 c.input_size && c.expected_size == 0

abbrev pub announced : Client → ℕ
announced c = get_le32 (drop 4 c.input)

abbrev pub sized : Client → Client
sized c = if header_due c then record c { expected_size = 8 + announced c } else c

abbrev pub is_whole : Client → Bool
is_whole c = c.expected_size != 0 && c.input_size == c.expected_size

-- The end of `handle_client_input` on a whole request.
unfoldable pub handle_request : Surroundings → Daemon → ℕ → Client → Status × Daemon
handle_request e d index c =
    let (result, request) = decode_request (take c.input_size c.input) blank_request in
    if not (is_ok result)
    then queue_client_response e d index 0 result []
    else start_request e d index request

-- The loop of `handle_client_input`, with the client at the index.
unfoldable pub input_loop : Surroundings → Daemon → ℕ → Client → List Receipt → Status × Daemon
input_loop e d index c [] = (ok, d)
input_loop e d index c (Receipt.interrupted ∷ later) = input_loop e d index c later
input_loop e d index c (Receipt.failed ∷ later) = (ok, close_client d index)
input_loop e d index c (gives xs ∷ later) =
    let bytes = take (4104 - c.input_size) xs in
    let c1 = taken_in c bytes in
    let c2 = sized c1 in
    let d2 = put_client d index c2 in
    let rest = input_loop e d2 index c2 later in
    if length bytes == 0
    then (ok, close_client d index)
    else if header_due c1 && ltb 4096 (announced c1)
    then queue_client_response e (put_client d index c1) index 0 limit []
    else if is_whole c2
    then handle_request e d2 index c2
    else rest

-- `handle_client_input`; every index in the daemon finds a client.
unfoldable pub handle_client_input : Surroundings → Daemon → ℕ → List Receipt → Status × Daemon
handle_client_input e d index receipts = elim (client_at d.clients index) [
  | none ↦ (ok, d)
  | some c ↦ input_loop e d index c receipts
]
