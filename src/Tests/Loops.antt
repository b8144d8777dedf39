-- ===== src/Tests/Loops.antt =====
-- apps/devmgrd/daemon.c and src/worker/worker.c: the event loop from its start to a running update.
use linux_device_manager.Base.{
  ℕ, ◌≡◌, refl, true, false, Option, none, some, List, [], ◌∷◌, take, replicate, overwrite, memcpy,
  strlen,
}
use linux_device_manager.Status.{Status, ok}
use linux_device_manager.Protocol.Constants.{flag_response}
use linux_device_manager.Firmware.{Image}
use linux_device_manager.Session.State.{DeviceState}
use linux_device_manager.Upgrade.State.{UpgradeState}
use linux_device_manager.Daemon.State.{Surroundings}
use linux_device_manager.Daemon.Calls.{gives, takes}
use linux_device_manager.Daemon.Calls as Calls
use linux_device_manager.Daemon.Loop.{
  Ready, Wakeup, listener, client, device, worker, thread, begins, finishes, Manager,
}
use linux_device_manager.Daemon.Setup.{set_up}
use linux_device_manager.Crc.{crc32}
use linux_device_manager.Protocol.Le.{put_le16, put_le32, get_le16, get_le32}
use linux_device_manager.Protocol.Frame
use linux_device_manager.Protocol.Frame.Wire.{zero_frame}
use linux_device_manager.Ring
use linux_device_manager.Parser.Drain.{parser_init, turn, drain, feed_loop, feed}
use linux_device_manager.Session.State
use linux_device_manager.Session.Request
use linux_device_manager.Upgrade.State as Upgrading
use linux_device_manager.Upgrade.Build.{build_request}
use linux_device_manager.Worker.{submit_firmware, take_result, begin_job}
use linux_device_manager.Ipc.Codec.{validate_header, decode_request, encode_response}
use linux_device_manager.Daemon.State.{queue_frame, responded, queue_client_response, close_client}
use linux_device_manager.Daemon.Upgrading.{
  queue_upgrade_request, on_device_frame, on_validation, handle_worker_completion, start_handshake,
}
use linux_device_manager.Daemon.Clients.{start_upgrade_request, start_request}
use linux_device_manager.Daemon.Input.{handle_request, input_loop, handle_client_input}
use linux_device_manager.Daemon.Output.{
  output_loop, handle_client_output, free_slot, accepted, accept_clients, flush_transport,
}
use linux_device_manager.Daemon.Loop.{
  read_transport, on_device, on_client, on_wakeup, on_wakeups, run_loop, daemon_run,
}

abbrev now : Surroundings
now = record { now_ns = 5; polls = true }

-- The device answers the ping, a client asks for an update, and the worker's thread opens the file.
abbrev pong_bytes : List ℕ
pong_bytes =
    let pong = record zero_frame { type = 1; flags = flag_response; sequence = 1 } in
    let encoded = Frame.encode pong (replicate 32 0) 0 in take encoded.encoded_length encoded.output

abbrev comes : List ℕ → Ready
comes bytes = record { readable = some (gives bytes ∷ []); writable = none; gone = false }

-- UPGRADE with the path "f" and the version "2".
abbrev upgrade_bytes : List ℕ
upgrade_bytes = 73 ∷ 80 ∷ 1 ∷ 0xf1 ∷ 4 ∷ 0 ∷ 0 ∷ 0 ∷ 102 ∷ 0 ∷ 50 ∷ 0 ∷ []

abbrev flushes_out : Ready
flushes_out = record { readable = none; writable = some (replicate 4 (takes 64)); gone = false }

abbrev small_image : Image
small_image = record { fd = some 7; image_data = some (1 ∷ 2 ∷ []); size = 2; crc32 = 9 }

abbrev update_batches : List (List (Surroundings × Wakeup))
update_batches =
    ((now, device flushes_out) ∷ (now, listener (Calls.accepts true ∷ [])) ∷ [])
    ∷ ((now, device (comes pong_bytes)) ∷ (now, client 0 (comes upgrade_bytes)) ∷ [])
    ∷ ((now, thread begins)
        ∷ (now, client 0 flushes_out)
        ∷ (now, thread (finishes ok small_image))
        ∷ [])
    ∷ ((now, worker true) ∷ [])
    ∷ []

abbrev states : Option (Status × Manager) → Option (Status × DeviceState × UpgradeState)
states none = none
states (some (s, m)) = some (s, m.link.context.session.state, m.link.context.upgrade.state)

-- The worker's result starts the update.
-- The worker's result starts the update.
update_runs :
    states (daemon_run now set_up update_batches)
    ≡ some (ok, DeviceState.upgrading, UpgradeState.enter_bootloader)
unfolding overwrite memcpy strlen crc32 put_le16 put_le32 get_le16 get_le32 Frame.encode_body
    Frame.encode Frame.decode zero_frame Ring.init Ring.space Ring.write Ring.peek Ring.discard
    parser_init turn drain feed_loop feed State.init State.transition Request.begin_request
    Request.accept_response Upgrading.init Upgrading.start Upgrading.active build_request
    submit_firmware take_result begin_job validate_header decode_request encode_response queue_frame
    responded queue_client_response close_client queue_upgrade_request on_device_frame on_validation
    handle_worker_completion start_handshake start_upgrade_request start_request handle_request
    input_loop handle_client_input output_loop handle_client_output free_slot accepted
    accept_clients flush_transport read_transport on_device on_client on_wakeup on_wakeups run_loop
    daemon_run
update_runs = refl
