-- ===== src/Daemon/Clients.antt =====
-- apps/devmgrd/daemon.c: `start_request`, a client's request.
use linux_device_manager.Base.{
  ℕ, ◌+◌, Bool, true, false, not, none, some, List, [], ◌∷◌, ◌++◌, ◌&&◌, ◌||◌, ◌==◌, ◌!=◌, ltb, leb,
  if◌then◌else◌, length, take, drop, overwrite, strlen, u32, u32_of_int,
}
use linux_device_manager.Status.{Status, ok, invalid, busy, not_found, is_ok, code}
use linux_device_manager.Span.{at}
use linux_device_manager.Protocol.Constants.{
  msg_start_telemetry, msg_stop_telemetry, flag_ack_required,
}
use linux_device_manager.Protocol.Le.{put_le32, get_le32}
use linux_device_manager.Protocol.Frame.Wire.{zero_frame}
use linux_device_manager.Session.State.{DeviceState}
use linux_device_manager.Session.Request.{begin_request}
use linux_device_manager.Upgrade.State.{UpgradeState, active, version_max}
use linux_device_manager.Worker.{submit_firmware}
use linux_device_manager.Ipc.Codec.{Request}
use linux_device_manager.Daemon.State.{Daemon, Surroundings, queue_frame, queue_client_response}
use linux_device_manager.Daemon.Upgrading.{retry_policy, cancelled}

-- `DEVMGR_IPC_GET_TELEMETRY`, `DEVMGR_IPC_UPGRADE` and `DEVMGR_IPC_UPGRADE_STATUS`
abbrev pub ipc_get_telemetry : ℕ
ipc_get_telemetry = 0xf0

abbrev pub ipc_upgrade : ℕ
ipc_upgrade = 0xf1

abbrev pub ipc_upgrade_status : ℕ
ipc_upgrade_status = 0xf2

-- The value of an enumerator.
abbrev pub state_code : UpgradeState → ℕ
state_code UpgradeState.idle = 0
state_code UpgradeState.validating = 1
state_code UpgradeState.enter_bootloader = 2
state_code UpgradeState.begin = 3
state_code UpgradeState.transfer = 4
state_code UpgradeState.recover = 5
state_code UpgradeState.end = 6
state_code UpgradeState.verify = 7
state_code UpgradeState.activate = 8
state_code UpgradeState.reboot = 9
state_code UpgradeState.complete = 10
state_code UpgradeState.error = 11

abbrev pub is_ready : DeviceState → Bool
is_ready DeviceState.ready = true
is_ready _ = false

abbrev pub is_streaming : DeviceState → Bool
is_streaming DeviceState.streaming = true
is_streaming _ = false

abbrev pub has_client : Daemon → Bool
has_client d = elim d.active_client [ none ↦ false | some index ↦ true ]

-- The payload of the answer to UPGRADE_STATUS.
abbrev pub upgrade_status : Daemon → List ℕ
upgrade_status d =
    put_le32 d.upgrade_operation_id
    ++ (state_code d.upgrade.state
        ∷ 0
        ∷ 0
        ∷ 0
        ∷ (put_le32 (u32_of_int (code d.upgrade_result))
            ++ (put_le32 d.upgrade.offset ++ put_le32 (u32 d.upgrade.image_size))))

-- The daemon that waits for a new image.
abbrev pub submitted : Daemon → List ℕ → Status × Daemon
submitted d payload =
    let path_length = strlen payload in
    let version = drop (path_length + 1) payload in
    let next = u32 (d.upgrade_operation_id + 1) in
    let id = if next == 0 then 1 else next in
    let (result, w) = submit_firmware d.worker id (some payload) in
    let d' = record d {
      upgrade_operation_id = id;
      upgrade_result = result;
      upgrade = record d.upgrade {
        state = if is_ok result then UpgradeState.validating else UpgradeState.error;
      };
      pending_upgrade_version =
          overwrite d.pending_upgrade_version (take (strlen version + 1) version);
      worker = w;
    } in
    (result, d')

-- The end of the branch for UPGRADE.
abbrev pub submit_upgrade : Surroundings → Daemon → ℕ → List ℕ → Status × Daemon
submit_upgrade e d index payload =
    let (result, d') = submitted d payload in
    if not (is_ready d.session.state) || (has_client d || active d.upgrade)
    then queue_client_response e d index ipc_upgrade busy []
    else if is_ok result
    then queue_client_response e d' index ipc_upgrade ok (put_le32 d'.upgrade_operation_id)
    else queue_client_response e d' index ipc_upgrade result []

-- The branch for UPGRADE: `payload` is the used part of the request's.
unfoldable pub start_upgrade_request : Surroundings → Daemon → ℕ → List ℕ → Status × Daemon
start_upgrade_request e d index payload =
    let refused = queue_client_response e d index ipc_upgrade invalid [] in
    let path_length = strlen payload in
    let version = drop (path_length + 1) payload in
    if path_length == length payload
    then refused
    else if (path_length == 0)
        || (leb (length payload) (path_length + 1) || (strlen version == length version))
    then refused
    else if (strlen version == 0) || ltb version_max (strlen version)
    then refused
    else submit_upgrade e d index payload

-- The end of `start_request`: a request that goes to the device.
unfoldable pub forward_request : Surroundings → Daemon → ℕ → ℕ → List ℕ → Status × Daemon
forward_request e d index command payload =
    let begun =
      begin_request d.session command flag_ack_required (at payload) (retry_policy 1000 500 2)
        e.now_ns zero_frame in
    let d1 = record d { session = begun.session } in
    let (result, d2) = queue_frame e d1 begun.request in
    if not (is_ok begun.status)
    then queue_client_response e d1 index command begun.status []
    else if not (is_ok result)
    then queue_client_response e (cancelled d2) index command result []
    else (ok, record d2 { active_client = some index })

-- `start_request`
unfoldable pub start_request : Surroundings → Daemon → ℕ → Request → Status × Daemon
start_request e d index request =
    let payload = take request.payload_length request.payload in
    let respond = λ (status : Status) (bytes : List ℕ).
      queue_client_response e d index request.command status bytes in
    let state = d.session.state in
    if request.command == ipc_get_telemetry
    then (if d.latest_telemetry_length == 0
        then respond not_found []
        else respond ok (take d.latest_telemetry_length d.latest_telemetry))
    else if request.command == ipc_upgrade_status
    then (if request.payload_length != 4
          || ((d.upgrade_operation_id == 0) || get_le32 request.payload != d.upgrade_operation_id)
        then respond not_found []
        else respond ok (upgrade_status d))
    else if request.command == ipc_upgrade
    then start_upgrade_request e d index payload
    else if active d.upgrade
    then respond busy []
    else if (request.command == msg_start_telemetry) && not (is_ready state)
    then respond Status.state []
    else if (request.command == msg_stop_telemetry) && not (is_streaming state)
    then respond Status.state []
    else if not (is_ready state) && not (is_streaming state)
    then respond Status.state []
    else if has_client d
    then respond busy []
    else forward_request e d index request.command payload
