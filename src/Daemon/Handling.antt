-- ===== src/Daemon/Handling.antt =====
-- Every handler of the daemon keeps the upgrade and the session coupled.
use linux_device_manager.Base.{
  ℕ, ◌≡◌, inl, inr, arith, true, not, ◌&&◌, ◌||◌, ◌==◌, ◌!=◌, Option, none, some, List, if-both,
  Bool-cases, take, if◌then◌else◌,
}
use linux_device_manager.Status.{Status, ok, protocol, is_ok}
use linux_device_manager.Protocol.Constants.{msg_telemetry, msg_start_telemetry, msg_stop_telemetry}
use linux_device_manager.Protocol.Frame.{Frame}
use linux_device_manager.Session.State.{DeviceState, Event, Session, transition}
use linux_device_manager.Session.Request
use linux_device_manager.Upgrade.State.{UpgradeState, Upgrade, start, active, default_chunk}
use linux_device_manager.Upgrade.Invariant.{is_running}
use linux_device_manager.Worker.{Worker, Validation, take_result}
use linux_device_manager.Daemon.State.{Daemon, Surroundings, queue_client_response}
use linux_device_manager.Daemon.Upgrading.{
  on_upgrade_frame, on_client_frame, on_device_frame, on_validation, handle_worker_completion,
  stepped, is_handshaking, is_nack, on_telemetry, answered_client, is_validating, not_started,
  queue_upgrade_request, completion,
}
use linux_device_manager.Daemon.Coupling.{
  Coupled, IsCoupled, kept-IsCoupled, on_upgrade_frame-IsCoupled, queue_client_response-Keeps,
  queue_upgrade_request-Keeps,
}

start_stream-Coupled :
    (s : Session) (u : UpgradeState)
    → Coupled s.state u
    → Coupled (transition s Event.start_stream).1.state u
unfolding transition
start_stream-Coupled s u v = ground arith

stop_stream-Coupled :
    (s : Session) (u : UpgradeState)
    → Coupled s.state u
    → Coupled (transition s Event.stop_stream).1.state u
unfolding transition
stop_stream-Coupled s u v = ground arith

handshake_ok-Coupled :
    (s : Session) (u : UpgradeState)
    → Coupled s.state u
    → Coupled (transition s Event.handshake_ok).1.state u
unfolding transition
handshake_ok-Coupled s u v = ground arith

pub accept_response-state :
    (s : Session) (f : Frame) → (Request.accept_response s f).1.state ≡ s.state
unfolding Request.accept_response
accept_response-state s f = ground arith

on_client_frame-IsCoupled :
    (e : Surroundings) (d : Daemon) (index type : ℕ) (f : Frame)
    → IsCoupled d
    → IsCoupled (on_client_frame e d index type f).1
unfolding on_client_frame
on_client_frame-IsCoupled e d index type f v =
    let d1 = record d { active_client = none } in
    let d2 =
      if is_nack f
      then d1
      else if type == msg_start_telemetry
      then stepped d1 Event.start_stream
      else if type == msg_stop_telemetry
      then stepped d1 Event.stop_stream
      else d1 in
    let v2 : IsCoupled d2 = if-both IsCoupled (is_nack f) d1 _ v (
      if-both IsCoupled (type == msg_start_telemetry) (stepped d1 Event.start_stream) _
        (start_stream-Coupled d.session d.upgrade.state v)
        (if-both IsCoupled (type == msg_stop_telemetry) (stepped d1 Event.stop_stream) d1
          (stop_stream-Coupled d.session d.upgrade.state v) v)) in
    let status = if is_nack f then protocol else ok in
    let payload = take f.payload_length f.payload in
    kept-IsCoupled d2 (queue_client_response e d2 index type status payload).1
      (queue_client_response-Keeps e d2 index type status payload) v2

pub on_device_frame-IsCoupled :
    (e : Surroundings) (d : Daemon) (f : Frame) → IsCoupled d → IsCoupled (on_device_frame e d f).1
unfolding on_device_frame
on_device_frame-IsCoupled e d f v =
    let P = λ (x : Status × Daemon). IsCoupled x.1 in
    let type = d.session.pending.frame.type in
    let (result, s) = Request.accept_response d.session f in
    let d' = record d { session = s } in
    let v' : IsCoupled d' = rw (accept_response-state d.session f) v in
    if-both P ((f.type == msg_telemetry) && (f.sequence == 0)) (ok, on_telemetry d f) _
      (if-both IsCoupled (f.payload_length == 16) _ d v v)
      (if-both P (not (is_ok result)) (ok, d') _ v'
        (if-both P (is_handshaking s.state) _ _
          (if-both P (is_nack f) (protocol, d') _ v' (handshake_ok-Coupled s d.upgrade.state v'))
          (if-both P (active d.upgrade) (on_upgrade_frame e d' type f) _
            (on_upgrade_frame-IsCoupled e d' type f v') (clients d' v' type d.active_client))))
  where
    clients :
        (d' : Daemon)
        → IsCoupled d'
        → (type : ℕ) → (c : Option ℕ) → IsCoupled (answered_client e d' type f c).1
    clients d' v' type none = v'
    clients d' v' type (some index) = on_client_frame-IsCoupled e d' index type f v'

-- Whatever the session was, an update that does not start leaves it in another state than
-- UPGRADING.
not_started-IsCoupled : (d : Daemon) (result : Status) → IsCoupled (not_started d result)
unfolding transition
not_started-IsCoupled d result = ground arith

start-running :
    (u : Upgrade) (image : Option (List ℕ)) (size crc : ℕ) (version : Option (List ℕ)) (chunk : ℕ)
    → is_ok (start u image size crc version chunk).0 ≡ true
    → is_running (start u image size crc version chunk).1.state ≡ true
unfolding start
start-running u image size crc version chunk h = ground arith

start_upgrade-upgrading :
    (s : Session)
    → is_ok (transition s Event.start_upgrade).0 ≡ true
    → (transition s Event.start_upgrade).1.state ≡ DeviceState.upgrading
unfolding transition
start_upgrade-upgrading s h = ground arith

on_validation-IsCoupled :
    (e : Surroundings) (d : Daemon) (v : Validation) → IsCoupled d → IsCoupled (on_validation e d v)
unfolding on_validation
on_validation-IsCoupled e d v c =
    let version = some d.pending_upgrade_version in
    let image = v.image in
    let (started, u) =
      start d.upgrade image.image_data image.size image.crc32 version default_chunk in
    let d1 = record d { firmware = image; upgrade = u } in
    let (entered, s) = transition d.session Event.start_upgrade in
    let d2 = record d1 { session = s } in
    let queued = queue_upgrade_request e d2 in
    let running =
      start-running d.upgrade image.image_data image.size image.crc32 version default_chunk in
    let entering = start_upgrade-upgrading d.session in
    elim (Bool-cases (v.job_id != d.upgrade_operation_id || not (is_validating d.upgrade.state))) [
      | inl other ↦ rw other c
      | inr own ↦ elim (Bool-cases (is_ok v.status)) [
        | inr bad ↦ rw (own, bad) (ground (arith, own, c))
        | inl valid ↦ elim (Bool-cases (is_ok started)) [
          | inr bad ↦ rw (own, valid, bad) (not_started-IsCoupled d1 started)
          | inl begun ↦ elim (Bool-cases (is_ok entered)) [
            | inr bad ↦ rw (own, valid, begun, bad) (not_started-IsCoupled d2 entered)
            | inl inside ↦
                rw (own, valid, begun, inside)
                  (if-both IsCoupled (not (is_ok queued.0)) _ queued.1
                    (not_started-IsCoupled queued.1 queued.0)
                    (kept-IsCoupled d2 queued.1 (queue_upgrade_request-Keeps e d2)
                      (λ r. entering inside, λ h. running begun)))
          ]
        ]
      ]
    ]

pub handle_worker_completion-IsCoupled :
    (e : Surroundings) (d : Daemon) → IsCoupled d → IsCoupled (handle_worker_completion e d).1
unfolding handle_worker_completion
handle_worker_completion-IsCoupled e d v =
    let (result, taken, w) = take_result d.worker in completed result w taken
  where
    completed :
        (result : Status) (w : Worker) (taken : Option Validation)
        → IsCoupled (completion e d result w taken).1
    completed result w none = v
    completed result w (some x) = on_validation-IsCoupled e (record d { worker = w }) x v
