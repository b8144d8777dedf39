-- ===== src/Daemon/Late.antt =====
-- A response that comes while the image is validated.
use linux_device_manager.Base.{ℕ, ◌≡◌, ◌≢◌, refl, ◌==◌, arith, true, false}
use linux_device_manager.Status.{ok, protocol}
use linux_device_manager.Protocol.Constants.{msg_telemetry}
use linux_device_manager.Protocol.Frame.{Frame}
use linux_device_manager.Session.State.{DeviceState, Event, Session, transition}
use linux_device_manager.Session.Request
use linux_device_manager.Upgrade.State.{UpgradeState, Upgrade, active}
use linux_device_manager.Upgrade.Accept
use linux_device_manager.Daemon.State.{Daemon, Surroundings}
use linux_device_manager.Daemon.Upgrading.{on_upgrade_frame, on_device_frame}
use linux_device_manager.Daemon.Handling.{accept_response-state}

validating_refuses :
    (u : Upgrade) (type : ℕ) (f : Frame)
    → u.state ≡ UpgradeState.validating
    → ((Accept.accept_response u type f).0 ≡ protocol)
      × ((Accept.accept_response u type f).1.state ≡ UpgradeState.error)
unfolding Accept.accept_response
validating_refuses u type f h = rw h (ground arith)

pub validating_active : (u : Upgrade) → u.state ≡ UpgradeState.validating → active u ≡ true
unfolding active
validating_active u h = rw h refl

upgrade_done_ready :
    (s : Session)
    → s.state ≡ DeviceState.ready
    → (transition s Event.upgrade_done).1.state ≡ DeviceState.ready
unfolding transition
upgrade_done_ready s h = ground arith

-- While the worker validates an image, the response to any request that is still pending, such as
-- one whose client has left, makes the upgrade fail: in READY a response that the session accepts,
-- and that is not telemetry, leaves the upgrade in ERROR with DEVMGR_ERROR_PROTOCOL as its result.
pub late_response_fails_upgrade :
    (e : Surroundings) (d : Daemon) (f : Frame)
    → d.upgrade.state ≡ UpgradeState.validating
    → d.session.state ≡ DeviceState.ready
    → f.type ≢ msg_telemetry
    → (Request.accept_response d.session f).0 ≡ ok
    → let (status, d') = on_device_frame e d f in
      (status ≡ ok)
      × (d'.upgrade.state ≡ UpgradeState.error)
      × (d'.upgrade_result ≡ protocol)
      × (d'.session.state ≡ DeviceState.ready)
unfolding on_device_frame on_upgrade_frame
late_response_fails_upgrade e d f validating ready plain accepted =
    let s = (Request.accept_response d.session f).1 in
    let ready' : s.state ≡ DeviceState.ready = rw (accept_response-state d.session f) ready in
    let no_telemetry : (f.type == msg_telemetry) ≡ false = ground arith in
    let (refused, failed) =
      validating_refuses d.upgrade d.session.pending.frame.type f validating in
    rw (no_telemetry, accepted, ready', validating_active d.upgrade validating, refused)
      (refl, failed, refl, upgrade_done_ready s ready')
