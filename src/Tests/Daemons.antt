-- ===== src/Tests/Daemons.antt =====
-- apps/devmgrd/daemon.c: a daemon that validates an image.
use linux_device_manager.Base.{◌≡◌, refl, arith, true}
use linux_device_manager.Status.{ok, protocol}
use linux_device_manager.Protocol.Constants.{flag_response}
use linux_device_manager.Protocol.Frame.{Frame}
use linux_device_manager.Protocol.Frame.Wire.{zero_frame}
use linux_device_manager.Session.State.{DeviceState, Session, Pending, Policy}
use linux_device_manager.Session.State
use linux_device_manager.Session.Request
use linux_device_manager.Upgrade.State.{UpgradeState}
use linux_device_manager.Upgrade.State as Upgrading
use linux_device_manager.Daemon.State.{Daemon, Surroundings}
use linux_device_manager.Daemon.Setup.{new_daemon}
use linux_device_manager.Daemon.Upgrading.{on_device_frame}
use linux_device_manager.Daemon.Late.{late_response_fails_upgrade}

abbrev here : Surroundings
here = record { now_ns = 5; polls = true }

-- The response to a ping.
abbrev pong : Frame
pong = record zero_frame { type = 1; flags = flag_response; sequence = 1 }

-- A ping in flight whose client has left.
abbrev ping : Pending
ping = record {
  frame = record zero_frame { type = 1; flags = 1; sequence = 1 };
  policy = record { timeout_ms = 1000; retry_interval_ms = 500; max_retries = 2 };
  deadline_ns = 9;
  retries_done = 0;
  active = true;
}

abbrev validating : Daemon
validating = record new_daemon {
  session = record (State.init) { state = DeviceState.ready; next_sequence = 2; pending = ping };
  upgrade = record (Upgrading.init) { state = UpgradeState.validating };
  upgrade_operation_id = 1;
}

ping_accepted : (Request.accept_response validating.session pong).0 ≡ ok
unfolding Request.accept_response zero_frame
ping_accepted = refl

late_response_fails_upgrade_example :
    let (status, d') = on_device_frame here validating pong in
    (status ≡ ok)
    × (d'.upgrade.state ≡ UpgradeState.error)
    × (d'.upgrade_result ≡ protocol)
    × (d'.session.state ≡ DeviceState.ready)
late_response_fails_upgrade_example =
    late_response_fails_upgrade here validating pong refl refl (omega arith) ping_accepted
