-- ===== src/Daemon/Output.antt =====
-- apps/devmgrd/daemon.c: what goes out to a client and to the device, and new clients.
pub mod Outgoing
pub mod Responses
use Prim.Native.Nat.{min}
use linux_device_manager.Base.{
  ℕ, suc, ◌+◌, ◌-◌, Bool, true, false, Option, none, some, List, [], ◌∷◌, ◌==◌, ltb, if◌then◌else◌,
  take, drop, replicate,
}
use linux_device_manager.Status.{Status, ok, io, disconnected}
use linux_device_manager.Daemon.State.{
  Client, Daemon, Surroundings, client_at, close_client, epoll_update,
}
use linux_device_manager.Daemon.Calls.{Sending, takes, Accepting, accepts, sent_before}
use linux_device_manager.Daemon.Input.{put_client}

-- The end of `handle_client_output`.
abbrev pub output_done : Daemon → ℕ → Client → List ℕ × Daemon
output_done d index c = ([], if c.close_after_write then close_client d index else d)

-- The loop of `handle_client_output` with the client at the index: the bytes that go out.
unfoldable pub output_loop : Daemon → ℕ → Client → List Sending → List ℕ × Daemon
output_loop d index c [] =
    if ltb c.output_offset c.output_size then ([], d) else output_done d index c
output_loop d index c (takes n ∷ later) =
    let left = c.output_size - c.output_offset in
    let count = min n left in
    let c' = record c { output_offset = c.output_offset + count } in
    let rest =
      sent_before (take count (drop c.output_offset c.output))
        (output_loop (put_client d index c') index c' later) in
    if left == 0
    then output_done d index c
    else if count == 0
    then ([], close_client d index)
    else rest
output_loop d index c (_ ∷ later) =
    if ltb c.output_offset c.output_size then ([], close_client d index) else output_done d index c

-- `handle_client_output`, which always returns DEVMGR_OK.
unfoldable pub handle_client_output : Daemon → ℕ → List Sending → List ℕ × Daemon
handle_client_output d index sendings = elim (client_at d.clients index) [
  | none ↦ ([], d)
  | some c ↦ output_loop d index c sendings
]

-- The first slot with no client.
unfoldable pub free_slot : List Client → Option ℕ
free_slot [] = none
free_slot (c ∷ cs) =
    if c.is_open then elim (free_slot cs) [ none ↦ none | some i ↦ some (suc i) ] else some 0

-- A client that has just come.
abbrev pub new_client : Client
new_client = record {
  is_open = true;
  input = replicate 4104 0;
  input_size = 0;
  expected_size = 0;
  output = replicate 4108 0;
  output_size = 0;
  output_offset = 0;
  close_after_write = false;
}

-- A descriptor that `accept4` gave: it is closed again when no slot is free, or cannot be polled.
unfoldable pub accepted : Daemon → Option ℕ → Bool → Daemon
accepted d none polls = d
accepted d (some index) polls =
    let d' = put_client d index new_client in if polls then d' else close_client d' index

-- `accept_clients`
unfoldable pub accept_clients : Daemon → List Accepting → Status × Daemon
accept_clients d [] = (ok, d)
accept_clients d (Accepting.interrupted ∷ later) = accept_clients d later
accept_clients d (Accepting.failed ∷ later) = (io, d)
accept_clients d (accepts polls ∷ later) =
    accept_clients (accepted d (free_slot d.clients) polls) later

-- The end of `flush_transport`.
abbrev pub flushed : Surroundings → Daemon → List ℕ × (Status × Daemon)
flushed e d =
    let d' = record d { transport_output_size = 0; transport_output_offset = 0 } in
    ([], (epoll_update e, if d.transport_output_offset == d.transport_output_size then d' else d))

-- `flush_transport`, with the loop of `devmgr_transport_write` on EINTR: the bytes that go out.
unfoldable pub flush_transport : Surroundings → Daemon → List Sending → List ℕ × (Status × Daemon)
flush_transport e d [] = flushed e d
flush_transport e d (Sending.interrupted ∷ later) =
    let rest = flush_transport e d later in
    if ltb d.transport_output_offset d.transport_output_size then rest else flushed e d
flush_transport e d (Sending.failed ∷ later) =
    if ltb d.transport_output_offset d.transport_output_size
    then ([], (disconnected, d))
    else flushed e d
flush_transport e d (takes n ∷ later) =
    let left = d.transport_output_size - d.transport_output_offset in
    let count = min n left in
    let d' = record d { transport_output_offset = d.transport_output_offset + count } in
    let rest =
      sent_before (take count (drop d.transport_output_offset d.transport_output))
        (flush_transport e d' later) in
    if left == 0 then flushed e d else if count == 0 then ([], (disconnected, d)) else rest
