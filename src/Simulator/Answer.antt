-- ===== src/Simulator/Answer.antt =====
-- simulator/device/simulator.c: what `on_frame` does with a request, up to the response that it
-- hands to `write_frame`.
pub mod Firmware
use linux_device_manager.Base.{
  ℕ, ◌+◌, ◌-◌, ◌*◌, ◌/◌, ◌^◌, Bool, true, false, not, Option, none, some, List, [], ◌∷◌, ◌++◌, ◌&&◌,
  ◌||◌, ltb, leb, ◌==◌, ◌!=◌, if◌then◌else◌, length, take, drop, memcpy, overwrite, strlen,
  equal_bytes, equal_strings, u16, u32, u64, ℤ, pos, negsuc, u32_of_int,
}
use linux_device_manager.Span.{at}
use linux_device_manager.Crc.{crc32}
use linux_device_manager.Protocol.Constants.{
  max_payload, msg_ping, msg_get_info, msg_get_health, msg_get_stats, msg_start_telemetry,
  msg_stop_telemetry, msg_enter_bootloader, msg_fw_begin, msg_fw_data, msg_fw_status, msg_fw_end,
  msg_fw_verify, msg_fw_activate, msg_reboot, msg_nack, flag_response,
}
use linux_device_manager.Protocol.Le.{put_le16, put_le32, get_le16, get_le32}
use linux_device_manager.Protocol.Frame.{Frame}
use linux_device_manager.Protocol.Frame.Wire.{zero_frame}
use linux_device_manager.Firmware.{firmware_max_size}
use linux_device_manager.Simulator.State.{Simulator}

-- `put_string`: the payload and the offset.
unfoldable pub put_string : List ℕ × ℕ → List ℕ → List ℕ × ℕ
put_string (payload, offset) value =
    let n = strlen value + 1 in
    if leb offset (length payload) && leb n (length payload - offset)
    then (memcpy payload offset (take n value), offset + n)
    else (payload, offset)

-- The response before the switch.
abbrev pub started_response : Frame → Frame
started_response request = record zero_frame {
  type = request.type;
  flags = flag_response;
  sequence = request.sequence;
}

-- A NACK with an error code, and a response with a payload.
abbrev pub nacked : Frame → ℕ → Frame
nacked response error = record response {
  type = msg_nack;
  payload = memcpy response.payload 0 (put_le16 error);
  payload_length = 2;
}

abbrev pub filled : Frame → List ℕ → Frame
filled response bytes = record response {
  payload = memcpy response.payload 0 bytes;
  payload_length = u16 (length bytes);
}

answer_info : Simulator → Frame → Simulator × Frame
answer_info s response =
    let payload = memcpy response.payload 0 (put_le32 s.device_id) in
    let name = put_string (payload, 4) (83 ∷ 84 ∷ 77 ∷ 51 ∷ 50 ∷ 45 ∷ 83 ∷ 73 ∷ 77 ∷ 0 ∷ []) in
    let hardware = put_string name (72 ∷ 87 ∷ 45 ∷ 49 ∷ 46 ∷ 48 ∷ 0 ∷ []) in
    let firmware = put_string hardware s.firmware_version in
    let loader = put_string firmware (66 ∷ 76 ∷ 45 ∷ 49 ∷ 46 ∷ 48 ∷ 46 ∷ 48 ∷ 0 ∷ []) in
    let (payload', offset) =
      put_string loader (83 ∷ 73 ∷ 77 ∷ 48 ∷ 48 ∷ 48 ∷ 48 ∷ 48 ∷ 48 ∷ 48 ∷ 49 ∷ 0 ∷ []) in
    (s, record response { payload = payload'; payload_length = u16 offset })

answer_start_telemetry : ℕ → Simulator → Frame → Frame → Simulator × Frame
answer_start_telemetry now_ns s request response =
    let interval = get_le32 request.payload in
    let s' = record s { telemetry_interval_ms = interval } in
    if request.payload_length != 4
    then (s, nacked response 3)
    else if ltb interval 100 || ltb 60000 interval
    then (s', nacked response 3)
    else (
      record s' {
        telemetry_enabled = true;
        next_telemetry_ns = u64 (now_ns + interval * 1_000_000);
      },
      filled response (put_le32 interval),
    )

-- `malloc` gives a block of the given size, of any bytes, or fails.
unfoldable pub answer_begin : (ℕ → Option (List ℕ)) → Simulator → Frame → Frame → Simulator × Frame
answer_begin malloc s request response =
    let image_size = get_le32 request.payload in
    let image_crc = get_le32 (drop 4 request.payload) in
    let chunk_size = get_le16 (drop 8 request.payload) in
    let text = take (request.payload_length - 10) (drop 10 request.payload) in
    let version_length = if strlen text == length text then 0 else strlen text in
    let next = u32 (s.firmware_session_id + 1) in
    let session = if next == 0 then 1 else next in
    let begun = λ (block : List ℕ). record s {
      flash = some block;
      flash_size = image_size;
      expected_firmware_crc = image_crc;
      firmware_chunk_size = chunk_size;
      firmware_offset = 0;
      firmware_session_id = session;
      pending_version = overwrite s.pending_version (take (version_length + 1) text);
      firmware_upgrading = true;
      firmware_verified = false;
    } in
    if not s.bootloader_active || ltb request.payload_length 11
    then (s, nacked response 2)
    else if (image_size == 0)
        || (ltb firmware_max_size image_size
            || ((chunk_size == 0)
                || (ltb (max_payload - 8) chunk_size
                    || ((version_length == 0) || leb (length s.pending_version) version_length))))
    then (s, nacked response 3)
    else if s.firmware_upgrading
        && ((s.flash_size == image_size)
            && ((s.expected_firmware_crc == image_crc)
                && ((s.firmware_chunk_size == chunk_size) && equal_strings s.pending_version text)))
    then (s, filled response (put_le32 s.firmware_session_id ++ put_le32 s.firmware_offset))
    else elim (malloc image_size) [
      | none ↦ (s, nacked response 6)
      | some block ↦ (begun block, filled response (put_le32 session ++ put_le32 0))
    ]

-- What `flash` points at; only reached where it is not null.
abbrev pub flash_bytes : Simulator → List ℕ
flash_bytes s = elim s.flash [ none ↦ [] | some block ↦ block ]

-- The injected outage after a chunk.
abbrev pub is_outage_due : Simulator → Bool
is_outage_due s = elim s.disconnect_at_percent [
  | negsuc n ↦ false
  | pos percent ↦
      not s.outage_injected
      && (s.flash_size != 0)
      && leb percent (s.firmware_offset * 100 / s.flash_size)
]

abbrev pub with_outage : ℕ → Simulator → Simulator
with_outage now_ns s =
    if is_outage_due s
    then record s { outage_injected = true; outage_until_ns = u64 (now_ns + 6_000_000_000) }
    else s

unfoldable pub answer_data : ℕ → Simulator → Frame → Frame → Simulator × Frame
answer_data now_ns s request response =
    let offset = get_le32 (drop 4 request.payload) in
    let data_length = request.payload_length - 8 in
    let data' = take data_length (drop 8 request.payload) in
    let flash = flash_bytes s in
    let written = record s {
      flash = some (memcpy flash offset data');
      firmware_offset = u32 (s.firmware_offset + data_length);
    } in
    if not s.firmware_upgrading
      || (leb request.payload_length 8 || get_le32 request.payload != s.firmware_session_id)
    then (s, nacked response 2)
    else if ltb s.firmware_chunk_size data_length
        || (ltb s.flash_size offset || ltb (s.flash_size - offset) data_length)
    then (s, nacked response 5)
    else if ltb offset s.firmware_offset
    then (if ltb s.firmware_offset (offset + data_length)
          || not (equal_bytes (take data_length (drop offset flash)) data')
        then (s, nacked response 5)
        else (with_outage now_ns s, filled response (put_le32 s.firmware_offset)))
    else if offset == s.firmware_offset
    then (with_outage now_ns written, filled response (put_le32 written.firmware_offset))
    else (s, nacked response 5)

-- The test that FW_STATUS, FW_END, FW_VERIFY and FW_ACTIVATE share.
abbrev pub names_session : Simulator → Frame → Bool
names_session s request =
    (request.payload_length == 4) && (get_le32 request.payload == s.firmware_session_id)

answer_status : Simulator → Frame → Frame → Simulator × Frame
answer_status s request response =
    if not s.firmware_upgrading || not (names_session s request)
    then (s, nacked response 2)
    else (s, filled response (put_le32 s.firmware_session_id ++ put_le32 s.firmware_offset))

answer_end : Simulator → Frame → Frame → Simulator × Frame
answer_end s request response =
    if not s.firmware_upgrading
      || (not (names_session s request) || s.firmware_offset != s.flash_size)
    then (s, nacked response 5)
    else (s, response)

abbrev pub actual_crc : Simulator → ℕ
actual_crc s = elim s.flash [ none ↦ 0 | some block ↦ crc32 (at (take s.flash_size block)) ]

answer_verify : Simulator → Frame → Frame → Simulator × Frame
answer_verify s request response =
    if not s.firmware_upgrading
      || (not (names_session s request)
          || (s.fail_verify || actual_crc s != s.expected_firmware_crc))
    then (s, nacked response 7)
    else (record s { firmware_verified = true }, filled response (put_le32 (actual_crc s)))

answer_activate : Simulator → Frame → Frame → Simulator × Frame
answer_activate s request response =
    let version = take (strlen s.pending_version + 1) s.pending_version in
    if not s.firmware_verified || not (names_session s request)
    then (s, nacked response 2)
    else (record s { firmware_version = overwrite s.firmware_version version }, response)

-- The switch of `on_frame`; `now_ns` is what the clock says.
unfoldable pub answer : (ℕ → Option (List ℕ)) → ℕ → Simulator → Frame → Simulator × Frame
unfolding answer_info answer_start_telemetry answer_status answer_end answer_verify answer_activate
answer malloc now_ns simulator request =
    let s = record simulator { rx_frames = u64 (simulator.rx_frames + 1) } in
    let response = started_response request in
    if request.type == msg_ping
    then (
      s,
      record response {
        payload_length = request.payload_length;
        payload = overwrite response.payload (take request.payload_length request.payload);
      },
    )
    else if request.type == msg_get_info
    then answer_info s response
    else if request.type == msg_get_health
    then (
      s,
      filled response
          (put_le32 (u32_of_int s.temperature_millic) ++ (put_le32 s.voltage_mv ++ put_le32 0)),
    )
    else if request.type == msg_get_stats
    then (
      s,
      filled response
          (put_le32 (u32 s.rx_frames) ++ (put_le32 (u32 s.tx_frames) ++ put_le32 (u32 s.errors))),
    )
    else if request.type == msg_start_telemetry
    then answer_start_telemetry now_ns s request response
    else if request.type == msg_stop_telemetry
    then (record s { telemetry_enabled = false }, response)
    else if request.type == msg_enter_bootloader
    then (record s { telemetry_enabled = false; bootloader_active = true }, response)
    else if request.type == msg_fw_begin
    then answer_begin malloc s request response
    else if request.type == msg_fw_data
    then answer_data now_ns s request response
    else if request.type == msg_fw_status
    then answer_status s request response
    else if request.type == msg_fw_end
    then answer_end s request response
    else if request.type == msg_fw_verify
    then answer_verify s request response
    else if request.type == msg_fw_activate
    then answer_activate s request response
    else if request.type == msg_reboot
    then (
      record s { bootloader_active = false; firmware_upgrading = false; firmware_verified = false },
      response,
    )
    else (s, nacked response 1)
