-- ===== src/Upgrade/Accept.antt =====
-- `devmgr_upgrade_accept_response`.
use linux_device_manager.Base.{ℕ, drop, ◌||◌, ltb, ◌==◌, ◌!=◌, if◌then◌else◌}
use linux_device_manager.Status.{Status, ok, protocol}
use linux_device_manager.Protocol.Constants.{
  msg_enter_bootloader, msg_fw_begin, msg_fw_data, msg_fw_status, msg_fw_end, msg_fw_verify,
  msg_fw_activate, msg_reboot, msg_nack, msg_error,
}
use linux_device_manager.Protocol.Le.{get_le32}
use linux_device_manager.Protocol.Frame.{Frame}
use linux_device_manager.Upgrade.State.{
  UpgradeState, enter_bootloader, begin, transfer, recover, end, verify, activate, reboot, complete,
  error, Upgrade,
}

-- What follows the switch: a `break` ends there.
abbrev failed : Upgrade → Status × Upgrade
failed u = (protocol, record u { state = error })

-- `END` when the whole image is acknowledged, else `TRANSFER`.
abbrev after_offset : Upgrade → Status × Upgrade
after_offset u = (ok, record u { state = if u.offset == u.image_size then end else transfer })

accept_begin : Upgrade → ℕ → Frame → Status × Upgrade
accept_begin u request_type response =
    let u' = record u {
      session_id = get_le32 response.payload;
      offset = get_le32 (drop 4 response.payload);
    } in
    if request_type != msg_fw_begin || response.payload_length != 8
    then failed u
    else if u'.session_id == 0 || ltb u'.image_size u'.offset
    then failed u'
    else after_offset u'

accept_transfer : Upgrade → ℕ → Frame → Status × Upgrade
accept_transfer u request_type response =
    let u' = record u { offset = get_le32 response.payload } in
    if request_type != msg_fw_data || response.payload_length != 4
    then failed u
    else if u'.offset != u'.last_chunk_end || ltb u'.image_size u'.offset
    then failed u'
    else after_offset u'

accept_recover : Upgrade → ℕ → Frame → Status × Upgrade
accept_recover u request_type response =
    let u' = record u { offset = get_le32 (drop 4 response.payload) } in
    if request_type != msg_fw_status
      || (response.payload_length != 8 || get_le32 response.payload != u.session_id)
    then failed u
    else if ltb u'.image_size u'.offset
    then failed u'
    else after_offset u'

accept_verify : Upgrade → ℕ → Frame → Status × Upgrade
accept_verify u request_type response =
    if request_type != msg_fw_verify
      || (response.payload_length != 4 || get_le32 response.payload != u.image_crc)
    then failed u
    else (ok, record u { state = activate })

-- The cases that look at the type of the request alone.
advance : ℕ → UpgradeState → Upgrade → ℕ → Status × Upgrade
advance expected next u request_type =
    if request_type != expected then failed u else (ok, record u { state = next })

accept : UpgradeState → Upgrade → ℕ → Frame → Status × Upgrade
unfolding accept_begin accept_transfer accept_recover accept_verify advance
accept enter_bootloader u request_type response = advance msg_enter_bootloader begin u request_type
accept begin u request_type response = accept_begin u request_type response
accept transfer u request_type response = accept_transfer u request_type response
accept recover u request_type response = accept_recover u request_type response
accept end u request_type response = advance msg_fw_end verify u request_type
accept verify u request_type response = accept_verify u request_type response
accept activate u request_type response = advance msg_fw_activate reboot u request_type
accept reboot u request_type response = advance msg_reboot complete u request_type
accept _ u request_type response = failed u

-- `devmgr_upgrade_accept_response`
unfoldable pub accept_response : Upgrade → ℕ → Frame → Status × Upgrade
unfolding accept
accept_response u request_type response =
    if response.type == msg_nack || response.type == msg_error
    then failed u
    else accept u.state u request_type response
