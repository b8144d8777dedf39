-- ===== src/Upgrade/Build.antt =====
-- `devmgr_upgrade_build_request`.
use linux_device_manager.Base.{
  ℕ, ◌+◌, ◌-◌, List, [], ◌∷◌, leb, ltb, ◌==◌, if◌then◌else◌, take, drop, memcpy, strlen, u16, u32,
}
use linux_device_manager.Status.{Status, ok}
use linux_device_manager.Protocol.Constants.{
  msg_enter_bootloader, msg_fw_begin, msg_fw_data, msg_fw_status, msg_fw_end, msg_fw_verify,
  msg_fw_activate, msg_reboot, flag_ack_required,
}
use linux_device_manager.Protocol.Le.{put_le16, put_le32}
use linux_device_manager.Protocol.Frame.{Frame}
use linux_device_manager.Protocol.Frame.Wire.{zero_frame}
use linux_device_manager.Upgrade.State.{
  UpgradeState, enter_bootloader, begin, transfer, recover, end, verify, activate, reboot, Upgrade,
}

-- What a call leaves: its status, the upgrade and `*frame`.
pub record Built : Type 0 where
  pub status : Status
  pub upgrade : Upgrade
  pub frame : Frame

-- A return of DEVMGR_ERROR_STATE after the `memset`.
abbrev pub refused : Upgrade → Built
refused u = record { status = Status.state; upgrade = u; frame = zero_frame }

-- The end of the switch: the flag is set and the call succeeds.
abbrev pub sent : Upgrade → ℕ → ℕ → List ℕ → Built
sent u type payload_length payload = record {
  status = ok;
  upgrade = u;
  frame = record zero_frame {
    type = type;
    payload_length = payload_length;
    payload = payload;
    flags = flag_ack_required;
  };
}

unfoldable pub build_begin : Upgrade → Built
build_begin u =
    let zero = zero_frame.payload in
    let payload1 = memcpy zero 0 (put_le32 u.image_size) in
    let payload2 = memcpy payload1 4 (put_le32 u.image_crc) in
    let payload3 = memcpy payload2 8 (put_le16 u.chunk_size) in
    let version_length = strlen u.version + 1 in
    let payload4 = memcpy payload3 10 (take version_length u.version) in
    sent u msg_fw_begin (u16 (10 + version_length)) payload4

unfoldable pub build_transfer : Upgrade → Built
build_transfer u =
    let payload1 = memcpy zero_frame.payload 0 (put_le32 u.session_id) in
    let payload2 = memcpy payload1 4 (put_le32 u.offset) in
    let remaining = u.image_size - u.offset in
    let chunk = if ltb remaining u.chunk_size then remaining else u.chunk_size in
    let payload3 = memcpy payload2 8 (take chunk (drop u.offset u.image_data)) in
    let u' = record u {
      last_chunk_end = u32 (u.offset + u32 chunk);
      chunks_sent = u32 (u.chunks_sent + 1);
    } in
    if leb u.image_size u.offset
    then record { status = Status.state; upgrade = u; frame = zero_frame }
    else sent u' msg_fw_data (u16 (8 + chunk)) payload3

unfoldable pub build_session : ℕ → Upgrade → Built
build_session type u = sent u type 4 (memcpy zero_frame.payload 0 (put_le32 u.session_id))

unfoldable pub build : UpgradeState → Upgrade → Built
unfolding build_begin build_transfer build_session
build enter_bootloader u = sent u msg_enter_bootloader 0 zero_frame.payload
build begin u = build_begin u
build transfer u = build_transfer u
build recover u = if u.session_id == 0 then refused u else build_session msg_fw_status u
build end u = build_session msg_fw_end u
build verify u = build_session msg_fw_verify u
build activate u = build_session msg_fw_activate u
build reboot u = sent u msg_reboot 1 (memcpy zero_frame.payload 0 (0 ∷ []))
build _ u = refused u

-- `devmgr_upgrade_build_request`
unfoldable pub build_request : Upgrade → Built
unfolding build
build_request u = build u.state u
