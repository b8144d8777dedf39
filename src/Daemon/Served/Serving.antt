-- ===== src/Daemon/Served/Serving.antt =====
-- The handlers of the device, of the worker and of the timer keep what is owed to the clients.
use linux_device_manager.Base.{
  ℕ, ◌≡◌, inl, inr, refl, ◌∙◌, arith, true, false, not, ◌&&◌, ◌==◌, ◌||◌, ◌!=◌, Option, none, some,
  List, if-both, if-cases, Bool-cases, if◌then◌else◌, take,
}
use linux_device_manager.Status.{Status, ok, protocol, timeout, is_ok}
use linux_device_manager.Protocol.Constants.{msg_telemetry, msg_start_telemetry, msg_stop_telemetry}
use linux_device_manager.Protocol.Frame.{Frame}
use linux_device_manager.Session.State.{Event, Session, transition}
use linux_device_manager.Session.Request
use linux_device_manager.Session.Request.{tick}
use linux_device_manager.Upgrade.State.{active}
use linux_device_manager.Worker.{Worker, Validation, take_result}
use linux_device_manager.Daemon.State.{Daemon, Surroundings, queue_frame, queue_client_response}
use linux_device_manager.Daemon.Upgrading.{
  on_upgrade_frame, on_client_frame, on_device_frame, on_validation, handle_worker_completion,
  on_upgrade_timeout, on_timer, expired, is_handshaking, is_nack, is_timeout, on_telemetry,
  answered_client, is_validating, completion,
}
use linux_device_manager.Daemon.Handling.{accept_response-state}
use linux_device_manager.Daemon.Late.{validating_active}
use linux_device_manager.Daemon.Served.{IsServed, Slots}
use linux_device_manager.Daemon.Served.Answering.{answering-IsServed}
use linux_device_manager.Daemon.Served.Keeping.{
  NoneWaits, kept-IsServed, idle-IsServed, updating-NoneWaits, on_upgrade_frame-SameClients,
  on_upgrade_timeout-SameClients, on_validation-SameClients, tick-SameClients,
}

-- The client that has waited gets its response.
answer_waiting :
    (e : Surroundings) (d : Daemon) (index command : ℕ) (status : Status) (payload : List ℕ)
    → d.active_client ≡ none
    → Slots d.clients (some index)
    → IsServed (queue_client_response e d index command status payload).1
answer_waiting e d index command verdict payload idle slots =
    answering-IsServed e d (some index) index command verdict payload (λ i c ne at. slots i c at)
      (λ j ne. (λ h. absurd (ground (arith, h)), λ h. cc (idle, h))) (λ h. cc (idle, h))
      (λ c at. ((slots index c at).client, inl ((slots index c at).waits refl).2))
      (λ i h. cc (idle, h)) (λ i h. cc (idle, h))

accept_response-refused :
    (s : Session) (f : Frame)
    → is_ok (Request.accept_response s f).0 ≡ false
    → (Request.accept_response s f).1.pending ≡ s.pending
unfolding Request.accept_response
accept_response-refused s f h = ground (arith, h)

on_client_frame-IsServed :
    (e : Surroundings) (d : Daemon) (index type : ℕ) (f : Frame)
    → Slots d.clients (some index)
    → IsServed (on_client_frame e d index type f).1
unfolding on_client_frame
on_client_frame-IsServed e d index type f slots =
    let d1 = record d { active_client = none } in
    let payload = take f.payload_length f.payload in
    let status = if is_nack f then protocol else ok in
    let P = λ (x : Daemon). IsServed (queue_client_response e x index type status payload).1 in
    let answer = λ (s : Session).
      answer_waiting e (record d1 { session = s }) index type status payload refl slots in
    if-both P (is_nack f) _ _ (answer d.session) (
      if-both P (type == msg_start_telemetry) _ _
        (answer (transition d.session Event.start_stream).1)
        (if-both P (type == msg_stop_telemetry) _ _
          (answer (transition d.session Event.stop_stream).1) (answer d.session)))

answered_client-IsServed :
    (e : Surroundings) (d : Daemon) (s : Session) (type : ℕ) (f : Frame) (w : Option ℕ)
    → d.active_client ≡ w
    → IsServed d
    → IsServed (answered_client e (record d { session = s }) type f w).1
answered_client-IsServed e d s type f none idle v =
    idle-IsServed d (record d { session = s }) (refl, refl) (λ i h. cc (idle, h)) v
answered_client-IsServed e d s type f (some index) waiting v =
    on_client_frame-IsServed e (record d { session = s }) index type f (rw waiting at v.slots)

pub on_device_frame-IsServed :
    (e : Surroundings) (d : Daemon) (f : Frame) → IsServed d → IsServed (on_device_frame e d f).1
unfolding on_device_frame
on_device_frame-IsServed e d f v =
    let P = λ (x : Status × Daemon). IsServed x.1 in
    let type = d.session.pending.frame.type in
    let (result, s) = Request.accept_response d.session f in
    let d' = record d { session = s } in
    let same_state = accept_response-state d.session f in
    let (handshake, s') = transition s Event.handshake_ok in
    if-both P ((f.type == msg_telemetry) && (f.sequence == 0)) (ok, on_telemetry d f) _
      (if-both IsServed (f.payload_length == 16) _ d (kept-IsServed d _ (refl, refl) v.waits v) v)
      (if-cases P (not (is_ok result)) _ _
        (λ bad.
          let kept = accept_response-refused d.session f (ground (arith, bad)) in
          kept-IsServed d d' (refl, refl)
            (λ i h.
              let (flight, quiet, settled) = v.waits i h in
              (rw kept flight, quiet, rw same_state settled))
            v)
        (λ good.
          if-cases P (is_handshaking s.state) _ _
            (λ starting.
              let idle : NoneWaits d = λ i h. cc ((v.waits i h).2, rw same_state at starting) in
              if-both P (is_nack f) _ _ (idle-IsServed d d' (refl, refl) idle v)
                (idle-IsServed d (record d { session = s' }) (refl, refl) idle v))
            (λ settled.
              if-cases P (active d.upgrade) _ _
                (λ updating.
                  idle-IsServed d (on_upgrade_frame e d' type f).1
                    (on_upgrade_frame-SameClients e d' type f) (updating-NoneWaits d v updating) v)
                (λ quiet. answered_client-IsServed e d s type f d.active_client refl v))))

validated_active :
    (d : Daemon) (x : Validation)
    → (x.job_id != d.upgrade_operation_id || not (is_validating d.upgrade.state)) ≡ false
    → active d.upgrade ≡ true
validated_active d x own = validating_active d.upgrade (ground (arith, own))

on_validation-other :
    (e : Surroundings) (d : Daemon) (x : Validation)
    → (x.job_id != d.upgrade_operation_id || not (is_validating d.upgrade.state)) ≡ true
    → on_validation e d x ≡ d
unfolding on_validation
on_validation-other e d x other = rw other refl

on_validation-IsServed :
    (e : Surroundings) (d : Daemon) (x : Validation) → IsServed d → IsServed (on_validation e d x)
on_validation-IsServed e d x v =
    elim (Bool-cases (x.job_id != d.upgrade_operation_id || not (is_validating d.upgrade.state))) [
      | inl other ↦ rw (on_validation-other e d x other) v
      | inr own ↦
          idle-IsServed d (on_validation e d x) (on_validation-SameClients e d x)
            (updating-NoneWaits d v (validated_active d x own)) v
    ]

pub handle_worker_completion-IsServed :
    (e : Surroundings) (d : Daemon) → IsServed d → IsServed (handle_worker_completion e d).1
unfolding handle_worker_completion
handle_worker_completion-IsServed e d v =
    let (result, taken, w) = take_result d.worker in completed result w taken
  where
    completed :
        (result : Status) (w : Worker) (taken : Option Validation)
        → IsServed (completion e d result w taken).1
    completed result w none = v
    completed result w (some x) =
        on_validation-IsServed e (record d { worker = w }) x
          (kept-IsServed d (record d { worker = w }) (refl, refl) v.waits v)

expired-IsServed :
    (e : Surroundings) (d : Daemon) (result : Status) (w : Option ℕ)
    → d.active_client ≡ w
    → Slots d.clients w
    → IsServed (expired e d result w).1
expired-IsServed e d result none idle slots = record {
  slots = rw idle slots;
  present = λ i h. cc (idle, h);
  waits = λ i h. cc (idle, h);
}
expired-IsServed e d result (some index) waiting slots =
    answer_waiting e (record d { active_client = none }) index 0 timeout _ refl slots

pub on_timer-IsServed : (e : Surroundings) (d : Daemon) → IsServed d → IsServed (on_timer e d).1
unfolding on_timer
on_timer-IsServed e d v =
    let P = λ (x : Status × Daemon). IsServed x.1 in
    let (result, s, d1) =
      tick (λ (f : Frame) (x : Daemon). queue_frame e x f) d.session e.now_ns d in
    let ((clients, waiting), upgrade, state, flight) = tick-SameClients e d in
    let d' = record d1 { session = s } in
    if-cases P (not (is_timeout result)) _ _
      (λ early.
        kept-IsServed d d' (clients, waiting)
          (λ i h.
            let (sent, quiet, settled) = v.waits i h in
            (flight (ground (arith, early)) ∙ sent, rw upgrade quiet, rw state settled))
          v)
      (λ late.
        if-cases P (active d'.upgrade) _ _
          (λ updating.
            let (clients', waiting') = on_upgrade_timeout-SameClients e d' in
            idle-IsServed d (on_upgrade_timeout e d') (clients' ∙ clients, waiting' ∙ waiting)
              (updating-NoneWaits d v (rw upgrade at updating)) v)
          (λ quiet.
            expired-IsServed e d' result d'.active_client refl (rw (clients, waiting) v.slots)))
