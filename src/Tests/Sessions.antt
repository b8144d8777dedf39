-- ===== src/Tests/Sessions.antt =====
-- src/device/session.c on a session with a ping in flight.
use linux_device_manager.Base.{
  ℕ, ◌+◌, ◌≡◌, ◌≢◌, ◌⊎◌, ◌↔◌, refl, arith, List, [], ◌∷◌, true, false, u64,
}
use linux_device_manager.Status.{Status, ok, timeout}
use linux_device_manager.Span.{null, at}
use linux_device_manager.Protocol.Frame.{Frame}
use linux_device_manager.Protocol.Frame.Wire.{zero_frame}
use linux_device_manager.Session.State.{
  cancel_request, DeviceState, connect, Session, Policy, init, transition,
}
use linux_device_manager.Session.State.Diagram.{Again, Edge, entered, transition_follows_diagram}
use linux_device_manager.Session.Request.{
  saturating_add, milliseconds_to_ns, begin_request, accept_response, tick, flagged,
}
use linux_device_manager.Session.Request.Lifecycle.{
  Completes, IsPayload, accept_response_iff, accept_response_effect, begin_request_lem,
}
use linux_device_manager.Session.Request.Retry.{resent, ticks, ticks_time_out}
use linux_device_manager.Session.Request.Trace.{
  IsSession, Call, begin, respond, run, run-IsSession, run_sequences_distinct, perform,
}

abbrev policy : Policy
policy = record { timeout_ms = 5; retry_interval_ms = 0; max_retries = 1 }

-- A callback that counts what it sends.
abbrev count : Frame → ℕ → Status × ℕ
count f n = (ok, n + 1)

abbrev asked : Session
asked = (begin_request init 1 2 (null 0) policy 0 zero_frame).session

abbrev ack : Frame
ack = record zero_frame { type = 128; sequence = 1 }

abbrev script : List Call
script =
    begin 1 2 (null 0) policy 0 zero_frame
    ∷ respond ack
    ∷ begin 1 2 (null 0) policy 9 zero_frame
    ∷ []

script_gives : (run count script init 0).0 ≡ 1 ∷ 2 ∷ []
unfolding run perform begin_request accept_response init saturating_add zero_frame
script_gives = refl

run_sequences_distinct_example : let a : ℕ = 1 in a ≢ 2
unfolding run perform begin_request accept_response init saturating_add zero_frame
run_sequences_distinct_example =
    run_sequences_distinct count script 0 0 1 1 2 refl refl (omega arith) (omega arith)

run-IsSession_example : IsSession (run count script init 0).1
run-IsSession_example = run-IsSession count script 0 (ground arith)

ticks_time_out_example :
    let (status, s', c') = ticks count asked (5_000_000 ∷ 10_000_000 ∷ []) 0 in
    (status ≡ timeout)
    × (s'.pending.active ≡ false)
    × (s'.stats.retries ≡ u64 (asked.stats.retries + 1))
    × (c' ≡ resent count 1 (flagged asked).pending.frame 0)
unfolding begin_request init saturating_add tick
ticks_time_out_example =
    ticks_time_out count (5_000_000 ∷ 10_000_000 ∷ []) asked 0 1 (λ f c. refl) (ground arith)
      (ground arith) (ground arith) refl

transition_follows_diagram_example :
    ((t : DeviceState) × Edge DeviceState.disconnected connect t
      × (transition init connect ≡ (ok, entered init connect t)))
    ⊎ ((Again DeviceState.disconnected connect
          × (transition init connect ≡ (ok, cancel_request init)))
        ⊎ (((t : DeviceState) → ¬ Edge DeviceState.disconnected connect t)
            × (¬ Again DeviceState.disconnected connect)
            × (transition init connect ≡ (Status.state, init))))
unfolding init
transition_follows_diagram_example = transition_follows_diagram init connect

accept_response_iff_example : ((accept_response asked ack).0 ≡ ok) ↔ (
    (asked.pending.active ≡ true)
    × (ack.sequence ≡ asked.pending.frame.sequence)
    × Completes asked.pending.frame.type ack)
accept_response_iff_example = accept_response_iff asked ack

accept_response_effect_example :
    let s' = (accept_response asked ack).1 in
    (((accept_response asked ack).0 ≡ ok)
      × (s'.pending ≡ record asked.pending { active = false })
      × (s'.last_completed_sequence ≡ ack.sequence)
      × (s'.next_sequence ≡ asked.next_sequence)
      × (s'.state ≡ asked.state))
    ⊎ (((accept_response asked ack).0 ≢ ok)
        × (s'.pending ≡ asked.pending)
        × (s'.last_completed_sequence ≡ asked.last_completed_sequence)
        × (s'.next_sequence ≡ asked.next_sequence)
        × (s'.state ≡ asked.state))
accept_response_effect_example = accept_response_effect asked ack

begin_request_lem_example :
    let r = begin_request init 1 2 (at (7 ∷ [])) policy 4 zero_frame in
    ((r.status ≡ ok)
      ↔ (IsPayload (at (7 ∷ [])) × (policy.timeout_ms ≢ 0) × (init.pending.active ≡ false)))
    × (r.status ≡ ok
        → (r.request.sequence ≡ init.next_sequence)
          × (r.session.pending.frame ≡ r.request)
          × (r.session.pending.active ≡ true)
          × (r.session.pending.retries_done ≡ 0)
          × (r.session.pending.deadline_ns ≡ saturating_add 4 (milliseconds_to_ns 5)))
    × (r.status ≢ ok → (r.session ≡ init) × (r.request ≡ zero_frame))
begin_request_lem_example = begin_request_lem init 1 2 (at (7 ∷ [])) policy 4 zero_frame
