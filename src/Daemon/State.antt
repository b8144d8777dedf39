-- ===== src/Daemon/State.antt =====
-- apps/devmgrd/daemon.c: the daemon's state, and the queues for a client and for the device.
use linux_device_manager.Base.{
  ℕ, zero, suc, Bool, true, false, Option, none, some, List, [], ◌∷◌, ltb, ◌==◌, if◌then◌else◌,
  length, replicate, overwrite,
}
use linux_device_manager.Status.{Status, ok, busy, io, limit, code, is_ok}
use linux_device_manager.Protocol.Frame.{Frame, encode}
use linux_device_manager.Session.State.{Session}
use linux_device_manager.Upgrade.State.{Upgrade}
use linux_device_manager.Firmware.{Image}
use linux_device_manager.Worker.{Worker}
use linux_device_manager.Ipc.Codec.{Response, encode_response}

-- `struct daemon_client`; `is_open` is `fd >= 0`, and `input` and `output` are the whole arrays.
pub record Client : Type 0 where
  pub is_open : Bool
  pub input : List ℕ
  pub input_size : ℕ  -- size_t
  pub expected_size : ℕ  -- size_t
  pub output : List ℕ
  pub output_size : ℕ  -- size_t
  pub output_offset : ℕ  -- size_t
  pub close_after_write : Bool

-- `struct daemon_context` without the descriptors, the parser, `running` and the path;
-- `active_client` is `none` for -1.
pub record Daemon : Type 0 where
  pub session : Session
  pub clients : List Client
  pub active_client : Option ℕ
  pub transport_output : List ℕ
  pub transport_output_size : ℕ  -- size_t
  pub transport_output_offset : ℕ  -- size_t
  pub latest_telemetry : List ℕ
  pub latest_telemetry_length : ℕ  -- size_t
  pub telemetry_frames : ℕ  -- uint64_t
  pub firmware : Image
  pub upgrade : Upgrade
  pub upgrade_operation_id : ℕ  -- uint32_t
  pub upgrade_result : Status
  pub worker : Worker
  pub pending_upgrade_version : List ℕ

-- What a step of the event loop finds: the clock, and whether `epoll_ctl` succeeds.
pub record Surroundings : Type 0 where
  pub now_ns : ℕ
  pub polls : Bool

-- `epoll_update`
abbrev pub epoll_update : Surroundings → Status
epoll_update e = if e.polls then ok else io

-- `clients[index]` with a change.
abbrev pub changed : (Client → Client) → ℕ → List Client → List Client
changed f index [] = []
changed f zero (c ∷ cs) = f c ∷ cs
changed f (suc index) (c ∷ cs) = c ∷ changed f index cs

-- `queue_frame`; the bytes behind the frame in the buffer stay as they are.
unfoldable pub queue_frame : Surroundings → Daemon → Frame → Status × Daemon
queue_frame e d frame =
    let encoded = encode frame d.transport_output d.transport_output_size in
    let d' = record d {
      transport_output = encoded.output;
      transport_output_size = encoded.encoded_length;
      transport_output_offset = 0;
    } in
    if ltb d.transport_output_offset d.transport_output_size
    then (busy, d)
    else if is_ok encoded.status
    then (epoll_update e, d')
    else (encoded.status, d')

-- A client with a response: its status, its output and its size.
unfoldable pub responded : Client → ℕ → Status → List ℕ → Status × Client
responded c command status payload =
    let fits = ltb (length payload) 4097 in
    let bytes = if fits then payload else [] in
    let response : Response = record {
      command = command;
      status = code (if fits then status else limit);
      payload_length = length bytes;
      payload = overwrite (replicate 4096 0) bytes;
    } in
    let encoded = encode_response response c.output c.output_size in
    let c' = record c { output = encoded.output; output_size = encoded.encoded_length } in
    if is_ok encoded.status
    then (ok, record c' { output_offset = 0; close_after_write = true })
    else (encoded.status, c')

abbrev pub client_at : List Client → ℕ → Option Client
client_at [] index = none
client_at (c ∷ cs) zero = some c
client_at (c ∷ cs) (suc index) = client_at cs index

-- The response to the client that is found; every index in the daemon finds one.
abbrev pub respond_to :
    Surroundings → Daemon → ℕ → ℕ → Status → List ℕ → Option Client → Status × Daemon
respond_to e d index command verdict payload none = (ok, d)
respond_to e d index command verdict payload (some c) =
    let (result, c') = responded c command verdict payload in
    let d' = record d { clients = changed (λ (old : Client). c') index d.clients } in
    if is_ok result then (epoll_update e, d') else (result, d')

-- `queue_client_response`; a null payload with the length 0 is empty.
unfoldable pub queue_client_response :
    Surroundings → Daemon → ℕ → ℕ → Status → List ℕ → Status × Daemon
queue_client_response e d index command status payload =
    respond_to e d index command status payload (client_at d.clients index)

-- `close_client`
unfoldable pub close_client : Daemon → ℕ → Daemon
close_client d index = record d {
  clients = changed (λ (c : Client). record c { is_open = false }) index d.clients;
  active_client = elim d.active_client [
    | none ↦ none
    | some i ↦ if i == index then none else some i
  ];
}
