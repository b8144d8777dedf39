-- ===== src/Tests/Managers.antt =====
-- apps/devmgrd/daemon.c: the event loop with a client.
use linux_device_manager.Base.{
  ℕ, ◌+◌, ◌<◌, ◌≤◌, ◌≡◌, ◌⊎◌, refl, arith, true, false, some, List, [], ◌∷◌, ◌++◌, length, take,
  drop, replicate, length-replicate, memcpy, overwrite,
}
use linux_device_manager.Status.{ok, timeout, code}
use linux_device_manager.Protocol.Le.{put_le16, put_le32}
use linux_device_manager.Protocol.Frame.Wire.{zero_frame}
use linux_device_manager.Session.State.{DeviceState, Pending}
use linux_device_manager.Session.State
use linux_device_manager.Upgrade.State as Upgrading
use linux_device_manager.Upgrade.State.{UpgradeState, active}
use linux_device_manager.Ipc.Codec.{
  Request, Response, encode_request, request_body, decode_response,
}
use linux_device_manager.Ipc.RoundTrip.{IsRequest}
use linux_device_manager.Daemon.State.{
  Client, Daemon, Surroundings, queue_client_response, queue_frame, close_client,
}
use linux_device_manager.Daemon.Clients.{start_request}
use linux_device_manager.Daemon.Calls.{Receipt, gives, Sending, takes}
use linux_device_manager.Daemon.Input.{put_client, handle_client_input}
use linux_device_manager.Daemon.Output.{new_client}
use linux_device_manager.Daemon.Loop.{client, Manager, run_loop}
use linux_device_manager.Daemon.Output.{flush_transport}
use linux_device_manager.Daemon.Upgrading.{on_timer}
use linux_device_manager.Session.Request.{tick, saturating_add}
use linux_device_manager.Protocol.Frame
use linux_device_manager.Crc.{crc32}
use linux_device_manager.Daemon.Setup.{new_daemon, set_up}
use linux_device_manager.Daemon.Loop.Abandoned.{hung_up, rounds, Silent, abandoned_timeout_ends}
use linux_device_manager.Daemon.Input.Arriving.{brought, HasReceived}
use linux_device_manager.Daemon.Input.Requests.{encoded_request, request_arrives}
use linux_device_manager.Daemon.Output.Outgoing.{total, sent_out, IsClosedAt}
use linux_device_manager.Daemon.Output.Responses.{response_arrives}

abbrev now : Surroundings
now = record { now_ns = 5; polls = true }

-- A daemon with one client, in the first slot.
abbrev visited : Daemon
visited = record new_daemon { clients = new_client ∷ [] }

abbrev get_health : Request
get_health = record { command = 3; payload_length = 0; payload = replicate 4096 0 }

abbrev out : List ℕ
out = replicate 8 0

get_health-IsRequest : IsRequest get_health
get_health-IsRequest = record { array = length-replicate {A = ℕ} 4096 0; fits = omega arith }

get_health_bytes : encoded_request get_health out 0 ≡ 73 ∷ 80 ∷ 1 ∷ 3 ∷ 0 ∷ 0 ∷ 0 ∷ 0 ∷ []
unfolding encode_request request_body put_le16 put_le32 memcpy overwrite
get_health_bytes = refl

-- The first five bytes.
abbrev receipts : List Receipt
receipts = gives (73 ∷ 80 ∷ []) ∷ Receipt.interrupted ∷ gives (1 ∷ 3 ∷ 0 ∷ []) ∷ []

nothing_received : HasReceived (encoded_request get_health out 0) 0 new_client
nothing_received = record {
  size = refl;
  start = refl;
  array = length-replicate {A = ℕ} 4104 0;
  header = refl;
}

received_parts :
    brought receipts ++ (0 ∷ 0 ∷ 0 ∷ []) ≡ drop 0 (73 ∷ 80 ∷ 1 ∷ 3 ∷ 0 ∷ 0 ∷ 0 ∷ 0 ∷ [])
unfolding brought
received_parts = refl

request_arrives_example :
    let w = encoded_request get_health out 0 in
    let m = 0 + length (brought receipts) in
    let result = handle_client_input now visited 0 receipts in
    (request : Request) × (request.command ≡ 3)
    × (request.payload_length ≡ 0)
    × (take request.payload_length request.payload ≡ [])
    × (((m < length w) × (c : Client) × (result ≡ (ok, put_client visited 0 c)) × HasReceived w m c)
        ⊎ ((m ≡ length w)
            × (c : Client) × (result ≡ start_request now (put_client visited 0 c) 0 request)))
request_arrives_example =
    request_arrives now visited 0 new_client get_health out 0 0 receipts (0 ∷ 0 ∷ 0 ∷ [])
      get_health-IsRequest (omega arith) refl nothing_received (rw get_health_bytes (omega arith))
      (omega arith) (rw get_health_bytes received_parts)

-- The answer in three calls, in pieces of five bytes at most.
abbrev no_response : Response
no_response = record {
  command = 0;
  status = code ok;
  payload_length = 0;
  payload = replicate 4096 0;
}

abbrev pieces : List (List ℕ)
pieces = (4 ∷ []) ∷ (0 ∷ 2 ∷ []) ∷ replicate 16 4 ∷ []

enough_pieces : 14 ≤ total pieces
enough_pieces = omega arith

response_arrives_example :
    let queued = (queue_client_response now visited 0 3 ok (1 ∷ 2 ∷ [])).1 in
    let (bytes, d) = sent_out queued 0 pieces in
    let (status, response) = decode_response bytes no_response in
    (status ≡ ok)
    × (response.command ≡ 3)
    × (response.status ≡ code ok)
    × (response.payload_length ≡ 2)
    × (take response.payload_length response.payload ≡ 1 ∷ 2 ∷ [])
    × IsClosedAt d 0
response_arrives_example =
    response_arrives now visited 0 3 ok (1 ∷ 2 ∷ []) new_client no_response pieces refl refl
      (length-replicate {A = ℕ} 4108 0) (omega arith) (length-replicate {A = ℕ} 4096 0)
      enough_pieces

-- A client whose request can be sent once more.
abbrev in_flight : Pending
in_flight = record {
  frame = record zero_frame { type = 3; flags = 1; sequence = 2 };
  policy = record { timeout_ms = 1000; retry_interval_ms = 500; max_retries = 2 };
  deadline_ns = 5;
  retries_done = 1;
  active = true;
}

abbrev waited : Manager
waited = record set_up {
  link = record (set_up.link) {
    context = record visited {
      active_client = some 0;
      session = record (State.init) {
        state = DeviceState.ready;
        next_sequence = 3;
        pending = in_flight;
      };
    };
  };
}

no_update : active Upgrading.init ≡ false
unfolding active Upgrading.init
no_update = refl

-- The device takes what is sent to it, and no more.
abbrev silence : List (List Sending × Surroundings)
silence = ([], now) ∷ (takes 64 ∷ [], record { now_ns = 600_000_000; polls = true }) ∷ []

waited-Silent : Silent 1 (close_client waited.link.context 0) silence
unfolding flush_transport close_client queue_frame on_timer tick zero_frame State.init
    saturating_add Frame.encode_body Frame.encode crc32 put_le16 put_le32 overwrite memcpy
waited-Silent = (refl, omega arith, refl, (refl, omega arith))

abandoned_timeout_ends_example :
    (m : Manager) × (run_loop waited (((now, client 0 hung_up) ∷ []) ∷ rounds silence [])
      ≡ some (timeout, m))
abandoned_timeout_ends_example =
    abandoned_timeout_ends now waited 0 1 silence [] refl refl refl no_update
      (refl, refl, omega arith) waited-Silent refl
