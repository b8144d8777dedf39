-- ===== src/Daemon/Setup.antt =====
-- apps/devmgrd/daemon.c: the daemon after a `setup_context` that succeeds.
use linux_device_manager.Base.{true, false, none, replicate}
use linux_device_manager.Status.{ok}
use linux_device_manager.Session.State
use linux_device_manager.Upgrade.State as Upgrading
use linux_device_manager.Firmware.{no_image}
use linux_device_manager.Worker.{worker_init}
use linux_device_manager.Protocol.Frame.Wire.{zero_frame}
use linux_device_manager.Parser.Drain.{parser_init}
use linux_device_manager.Daemon.State.{Client, Daemon}
use linux_device_manager.Daemon.Loop.{Manager}

-- A slot with no client.
abbrev pub no_client : Client
no_client = record {
  is_open = false;
  input = replicate 4104 0;
  input_size = 0;
  expected_size = 0;
  output = replicate 4108 0;
  output_size = 0;
  output_offset = 0;
  close_after_write = false;
}

-- `context` with MAX_CLIENTS slots.
abbrev pub new_daemon : Daemon
new_daemon = record {
  session = State.init;
  clients = replicate 16 no_client;
  active_client = none;
  transport_output = replicate 4112 0;
  transport_output_size = 0;
  transport_output_offset = 0;
  latest_telemetry = replicate 16 0;
  latest_telemetry_length = 0;
  telemetry_frames = 0;
  firmware = no_image;
  upgrade = Upgrading.init;
  upgrade_operation_id = 0;
  upgrade_result = ok;
  worker = worker_init;
  pending_upgrade_version = replicate 32 0;
}

-- `context` with its parser, which has a frame of its own to work on.
abbrev pub set_up : Manager
set_up = record {
  link = record { parser = parser_init.1; frame = zero_frame; context = new_daemon; emitted = 0 };
  running = true;
  job = none;
}
