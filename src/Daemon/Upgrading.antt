-- ===== src/Daemon/Upgrading.antt =====
-- apps/devmgrd/daemon.c: the handlers that drive an update.
use linux_device_manager.Base.{
  ℕ, ◌+◌, Bool, true, false, not, Option, none, some, [], ◌&&◌, ◌||◌, ◌==◌, ◌!=◌, if◌then◌else◌,
  take, overwrite, u64,
}
use linux_device_manager.Status.{Status, ok, protocol, timeout, is_ok}
use linux_device_manager.Span.{null, at}
use linux_device_manager.Protocol.Constants.{
  msg_ping, msg_telemetry, msg_start_telemetry, msg_stop_telemetry, msg_nack, msg_error,
  flag_ack_required,
}
use linux_device_manager.Protocol.Frame.{Frame}
use linux_device_manager.Protocol.Frame.Wire.{zero_frame}
use linux_device_manager.Session.State.{DeviceState, Event, Policy, transition, cancel_request}
use linux_device_manager.Session.Request
use linux_device_manager.Session.Request.{begin_request, tick}
use linux_device_manager.Upgrade.State.{UpgradeState, start, active, begin_recovery, default_chunk}
use linux_device_manager.Upgrade.Build.{build_request}
use linux_device_manager.Upgrade.Accept
use linux_device_manager.Firmware.{firmware_close}
use linux_device_manager.Worker.{Worker, Validation, take_result}
use linux_device_manager.Daemon.State.{Daemon, Surroundings, queue_frame, queue_client_response}

abbrev pub is_handshaking : DeviceState → Bool
is_handshaking DeviceState.handshaking = true
is_handshaking _ = false

abbrev pub is_upgrading : DeviceState → Bool
is_upgrading DeviceState.upgrading = true
is_upgrading _ = false

abbrev pub is_nack : Frame → Bool
is_nack frame = frame.type == msg_nack || frame.type == msg_error

-- A transition whose status is not looked at.
abbrev pub stepped : Daemon → Event → Daemon
stepped d event = record d { session = (transition d.session event).1 }

abbrev pub closed_firmware : Daemon → Daemon
closed_firmware d = record d { firmware = (firmware_close d.firmware).image }

abbrev pub retry_policy : ℕ → ℕ → ℕ → Policy
retry_policy timeout_ms retry_interval_ms max_retries = record {
  timeout_ms = timeout_ms;
  retry_interval_ms = retry_interval_ms;
  max_retries = max_retries;
}

abbrev pub cancelled : Daemon → Daemon
cancelled d = record d { session = cancel_request d.session }

-- The end of `queue_upgrade_request`, by the first call that fails.
abbrev pub finished_request : Status → Status → Status → Daemon → Daemon → Daemon → Status × Daemon
finished_request built begun queued d1 d2 d3 =
    if not (is_ok built)
    then (built, cancelled d1)
    else if not (is_ok begun)
    then (begun, cancelled d2)
    else if not (is_ok queued)
    then (queued, cancelled d3)
    else (ok, d3)

-- `queue_upgrade_request`
unfoldable pub queue_upgrade_request : Surroundings → Daemon → Status × Daemon
queue_upgrade_request e d =
    let built = build_request d.upgrade in
    let begun =
      begin_request d.session built.frame.type built.frame.flags
        (at (take built.frame.payload_length built.frame.payload)) (retry_policy 2000 750 4)
        e.now_ns zero_frame in
    let d1 = record d { upgrade = built.upgrade } in
    let d2 = record d1 { session = begun.session } in
    let (result, d3) = queue_frame e d2 begun.request in
    finished_request built.status begun.status result d1 d2 d3

abbrev pub is_complete : UpgradeState → Bool
is_complete UpgradeState.complete = true
is_complete _ = false

-- The upgrade in the branch of `on_device_frame` for an active one.
unfoldable pub on_upgrade_frame : Surroundings → Daemon → ℕ → Frame → Status × Daemon
on_upgrade_frame e d request_type frame =
    let (result, u) = Accept.accept_response d.upgrade request_type frame in
    let d' = record d { upgrade = u } in
    let over = λ (x : Status).
      closed_firmware (stepped (record d' { upgrade_result = x }) Event.upgrade_done) in
    if not (is_ok result)
    then (ok, over result)
    else if is_complete u.state
    then (ok, over ok)
    else queue_upgrade_request e d'

-- The branch for a client that waits.
unfoldable pub on_client_frame : Surroundings → Daemon → ℕ → ℕ → Frame → Status × Daemon
on_client_frame e d index request_type frame =
    let d1 = record d { active_client = none } in
    let d2 =
      if is_nack frame
      then d1
      else if request_type == msg_start_telemetry
      then stepped d1 Event.start_stream
      else if request_type == msg_stop_telemetry
      then stepped d1 Event.stop_stream
      else d1 in
    queue_client_response e d2 index request_type (if is_nack frame then protocol else ok)
      (take frame.payload_length frame.payload)

-- The branch for the telemetry that no request asked for.
abbrev pub on_telemetry : Daemon → Frame → Daemon
on_telemetry d frame =
    if frame.payload_length == 16
    then record d {
      latest_telemetry = overwrite d.latest_telemetry (take 16 frame.payload);
      latest_telemetry_length = 16;
      telemetry_frames = u64 (d.telemetry_frames + 1);
    }
    else d

abbrev pub answered_client : Surroundings → Daemon → ℕ → Frame → Option ℕ → Status × Daemon
answered_client e d request_type frame none = (ok, d)
answered_client e d request_type frame (some index) = on_client_frame e d index request_type frame

-- `on_device_frame`
unfoldable pub on_device_frame : Surroundings → Daemon → Frame → Status × Daemon
on_device_frame e d frame =
    let request_type = d.session.pending.frame.type in
    let (result, s) = Request.accept_response d.session frame in
    let d' = record d { session = s } in
    let (handshake, s') = transition s Event.handshake_ok in
    if (frame.type == msg_telemetry) && (frame.sequence == 0)
    then (ok, on_telemetry d frame)
    else if not (is_ok result)
    then (ok, d')
    else if is_handshaking s.state
    then (if is_nack frame then (protocol, d') else (handshake, record d { session = s' }))
    else if active d.upgrade
    then on_upgrade_frame e d' request_type frame
    else answered_client e d' request_type frame d.active_client

-- The end of `handle_worker_completion` when the update does not start.
abbrev pub not_started : Daemon → Status → Daemon
not_started d result =
    let d' = closed_firmware (record d {
      upgrade_result = result;
      upgrade = record d.upgrade { state = UpgradeState.error };
    }) in
    if is_upgrading d'.session.state then stepped d' Event.upgrade_done else d'

abbrev pub is_validating : UpgradeState → Bool
is_validating UpgradeState.validating = true
is_validating _ = false

-- What `handle_worker_completion` does with a result.
unfoldable pub on_validation : Surroundings → Daemon → Validation → Daemon
on_validation e d v =
    let (started, u) =
      start d.upgrade v.image.image_data v.image.size v.image.crc32 (some d.pending_upgrade_version)
        default_chunk in
    let d1 = record d { firmware = v.image; upgrade = u } in
    let (entered, s) = transition d1.session Event.start_upgrade in
    let d2 = record d1 { session = s } in
    let (queued, d3) = queue_upgrade_request e d2 in
    if v.job_id != d.upgrade_operation_id || not (is_validating d.upgrade.state)
    then d
    else if not (is_ok v.status)
    then record d {
      upgrade_result = v.status;
      upgrade = record d.upgrade { state = UpgradeState.error };
    }
    else if not (is_ok started)
    then not_started d1 started
    else if not (is_ok entered)
    then not_started d2 entered
    else if not (is_ok queued)
    then not_started d3 queued
    else d3

abbrev pub completion :
    Surroundings → Daemon → Status → Worker → Option Validation → Status × Daemon
completion e d result w none = (result, d)
completion e d result w (some v) = (ok, on_validation e (record d { worker = w }) v)

-- `handle_worker_completion` behind the `read` of the event descriptor.
unfoldable pub handle_worker_completion : Surroundings → Daemon → Status × Daemon
handle_worker_completion e d =
    let (result, taken, w) = take_result d.worker in completion e d result w taken

-- The timer branch of `devmgr_daemon_run` for a request of an update that has timed out.
unfoldable pub on_upgrade_timeout : Surroundings → Daemon → Daemon
on_upgrade_timeout e d =
    let (result, u) = begin_recovery d.upgrade in
    let d1 = record d { upgrade = u } in
    let (queued, d2) = queue_upgrade_request e d1 in
    let failed = λ (x : Daemon).
      stepped
        (closed_firmware (record x {
          upgrade_result = timeout;
          upgrade = record x.upgrade { state = UpgradeState.error };
        }))
        Event.upgrade_done in
    if not (is_ok result) then failed d1 else if not (is_ok queued) then failed d2 else d2

abbrev pub is_timeout : Status → Bool
is_timeout timeout = true
is_timeout _ = false

-- The answer to the client whose request has timed out.
abbrev pub expired : Surroundings → Daemon → Status → Option ℕ → Status × Daemon
expired e d result none = (result, d)
expired e d result (some index) =
    queue_client_response e (record d { active_client = none }) index 0 timeout []

-- The timer branch of `devmgr_daemon_run` behind the `read` of the timer.
unfoldable pub on_timer : Surroundings → Daemon → Status × Daemon
on_timer e d =
    let (result, s, d1) =
      tick (λ (f : Frame) (x : Daemon). queue_frame e x f) d.session e.now_ns d in
    let d' = record d1 { session = s } in
    if not (is_timeout result)
    then (result, d')
    else if active d'.upgrade
    then (ok, on_upgrade_timeout e d')
    else expired e d' result d'.active_client

-- `start_handshake`
unfoldable pub start_handshake : Surroundings → Daemon → Status × Daemon
start_handshake e d =
    let (connected, s1) = transition d.session Event.connect in
    let (transport, s2) = transition s1 Event.transport_connected in
    let begun =
      begin_request s2 msg_ping flag_ack_required (null 0) (retry_policy 1000 500 3) e.now_ns
        zero_frame in
    if not (is_ok connected)
    then (connected, record d { session = s1 })
    else if not (is_ok transport)
    then (transport, record d { session = s2 })
    else if not (is_ok begun.status)
    then (begun.status, record d { session = begun.session })
    else queue_frame e (record d { session = begun.session }) begun.request
