-- ===== src/Daemon/Loop/Unheard.antt =====
-- A request in flight that nobody waits for, and the timer.
use Prim.Native.Nat.{min}
use linux_device_manager.Base.{
  ℕ, suc, ◌≤◌, ◌≡◌, refl, arith, false, none, List, [], ◌∷◌, if-both, ◌-◌, ◌+◌, ◌==◌, take, drop,
}
use linux_device_manager.Status.{Status, ok, timeout, disconnected}
use linux_device_manager.Protocol.Frame.{Frame}
use linux_device_manager.Session.Request.{tick, flagged}
use linux_device_manager.Session.Request.Retry.{InFlight}
use linux_device_manager.Daemon.Calls.{Sending, takes, sent_before}
use linux_device_manager.Daemon.Output.{flushed, flush_transport}
use linux_device_manager.Upgrade.State.{active}
use linux_device_manager.Daemon.State.{Daemon, Surroundings, queue_frame}
use linux_device_manager.Daemon.Upgrading.{on_timer}

-- A request in flight that nobody waits for, with `left` retries left, and no update.
abbrev pub Abandoned : ℕ → Daemon → Type 0
Abandoned left d = (d.active_client ≡ none) × (active d.upgrade ≡ false) × InFlight left d.session

-- Two daemons with the same session, upgrade and client that waits.
abbrev pub Alike : Daemon → Daemon → Type 0
Alike d d' =
    (d'.session ≡ d.session) × (d'.upgrade ≡ d.upgrade) × (d'.active_client ≡ d.active_client)

pub Alike-Abandoned : (left : ℕ) (d d' : Daemon) → Alike d d' → Abandoned left d → Abandoned left d'
Alike-Abandoned left d d' (session, upgrade, waits) v = rw (session, upgrade, waits) v

flushed-Alike : (e : Surroundings) (d : Daemon) → Alike d (flushed e d).1.1
flushed-Alike e d = ground arith

pub flush_transport-Alike :
    (e : Surroundings) (sendings : List Sending) (d : Daemon)
    → Alike d (flush_transport e d sendings).1.1
unfolding flush_transport
flush_transport-Alike e [] d = flushed-Alike e d
flush_transport-Alike e (Sending.interrupted ∷ later) d =
    if-both (λ (x : List ℕ × (Status × Daemon)). Alike d x.1.1) _ _ (flushed e d)
      (flush_transport-Alike e later d) (flushed-Alike e d)
flush_transport-Alike e (Sending.failed ∷ later) d =
    if-both (λ (x : List ℕ × (Status × Daemon)). Alike d x.1.1) _ _ (flushed e d) (refl, refl, refl)
      (flushed-Alike e d)
flush_transport-Alike e (takes n ∷ later) d =
    let P = λ (x : List ℕ × (Status × Daemon)). Alike d x.1.1 in
    let left = d.transport_output_size - d.transport_output_offset in
    let count = min n left in
    let d' = record d { transport_output_offset = d.transport_output_offset + count } in
    if-both P (left == 0) (flushed e d) _ (flushed-Alike e d) (
      if-both P (count == 0) ([], (disconnected, d))
        (sent_before (take count (drop d.transport_output_offset d.transport_output))
          (flush_transport e d' later))
        (refl, refl, refl) (flush_transport-Alike e later d'))

queue_frame-Alike : (e : Surroundings) (d : Daemon) (f : Frame) → Alike d (queue_frame e d f).1
unfolding queue_frame
queue_frame-Alike e d f = ground arith

-- A due timer sends the request again.
pub resends :
    (e : Surroundings) (d : Daemon) (left : ℕ)
    → Abandoned (suc left) d
    → d.session.pending.deadline_ns ≤ e.now_ns
    → (queue_frame e d (flagged d.session).pending.frame).0 ≡ ok
    → ((on_timer e d).0 ≡ ok) × Abandoned left (on_timer e d).1
unfolding on_timer tick
resends e d left v due sends =
    let (session, upgrade, waits) = queue_frame-Alike e d (flagged d.session).pending.frame in
    ground (arith, v, due, sends, upgrade, waits)

-- Nobody waits for the request that times out.
pub unheard_timeout :
    (e : Surroundings) (d : Daemon)
    → Abandoned 0 d
    → d.session.pending.deadline_ns ≤ e.now_ns
    → (on_timer e d).0 ≡ timeout
unfolding on_timer tick
unheard_timeout e d v due = ground (arith, v, due)
