-- ===== src/Simulator/Answer/Firmware.antt =====
-- How the simulator answers the requests of an update that goes well.
use linux_device_manager.Base.{
  ℕ, ◌+◌, ◌-◌, ◌^◌, ◌≤◌, ◌<◌, ◌≡◌, ◌≢◌, refl, arith, true, false, not, Option, some, List, ◌++◌,
  length, take, drop, memcpy, overwrite, strlen, u32, u64, overwrite-eq-append, ltb, leb, ◌==◌,
  if◌then◌else◌,
}
use linux_device_manager.Protocol.Constants.{
  max_payload, msg_enter_bootloader, msg_fw_begin, msg_fw_data, msg_fw_status, msg_fw_end,
  msg_fw_verify, msg_fw_activate, msg_reboot,
}
use linux_device_manager.Protocol.Le.{put_le32, get_le16, get_le32, get_le32-put_le32}
use linux_device_manager.Protocol.Frame.{Frame}
use linux_device_manager.Protocol.Frame.Wire.{zero_frame, length-zero_frame}
use linux_device_manager.Simulator.State.{Simulator}
use linux_device_manager.Firmware.{firmware_max_size}
use linux_device_manager.Simulator.Answer.{
  started_response, filled, flash_bytes, with_outage, actual_crc, answer, answer_begin, answer_data,
  answer_status, answer_end, answer_verify, answer_activate,
}

-- A frame is received.
abbrev pub counted : Simulator → Simulator
counted s = record s { rx_frames = u64 (s.rx_frames + 1) }

-- The session number that FW_BEGIN gives.
abbrev pub new_session : Simulator → ℕ
new_session s = let next = u32 (s.firmware_session_id + 1) in if next == 0 then 1 else next

-- The words at the start of a response.
pub filled-word :
    (request : Frame) (a : ℕ) (rest : List ℕ)
    → a < 2 ^ 32
    → length rest ≤ 4092
    → get_le32 (filled (started_response request) (put_le32 a ++ rest)).payload ≡ a
unfolding memcpy put_le32
filled-word request a rest h few =
    let z = zero_frame.payload in
    let bytes = put_le32 a ++ rest in
    rw (overwrite-eq-append z bytes (omega (arith, length-zero_frame)))
      (get_le32-put_le32 a (rest ++ drop (length bytes) z) h)

pub filled-second :
    (request : Frame) (a b : ℕ)
    → b < 2 ^ 32
    → get_le32 (drop 4 (filled (started_response request) (put_le32 a ++ put_le32 b)).payload) ≡ b
unfolding memcpy put_le32
filled-second request a b h =
    let z = zero_frame.payload in
    rw (overwrite-eq-append z (put_le32 a ++ put_le32 b) (omega (arith, length-zero_frame)))
      (get_le32-put_le32 b (drop 8 z) h)

module _ (malloc : ℕ → Option (List ℕ)) (now_ns : ℕ) (s : Simulator) (r : Frame) where
  pub answer-enter :
      r.type ≡ msg_enter_bootloader
      → answer malloc now_ns s r ≡ (
        record (counted s) { telemetry_enabled = false; bootloader_active = true },
        started_response r,
      )
  unfolding answer
  answer-enter h = rw h refl

  -- Without an update under way FW_BEGIN opens a new session.
  pub answer-begin :
      (block : List ℕ)
      → r.type ≡ msg_fw_begin
      → s.bootloader_active ≡ true
      → s.firmware_upgrading ≡ false
      → 11 ≤ r.payload_length
      → get_le32 r.payload ≢ 0
      → get_le32 r.payload ≤ firmware_max_size
      → get_le16 (drop 8 r.payload) ≢ 0
      → get_le16 (drop 8 r.payload) ≤ max_payload - 8
      → (let text = take (r.payload_length - 10) (drop 10 r.payload) in
          (strlen text ≢ 0)
          × (strlen text < length text)
          × (strlen text < length s.pending_version))
      → malloc (get_le32 r.payload) ≡ some block
      → let text = take (r.payload_length - 10) (drop 10 r.payload) in
        let id = new_session s in
        answer malloc now_ns s r ≡ (
          record (counted s) {
            flash = some block;
            flash_size = get_le32 r.payload;
            expected_firmware_crc = get_le32 (drop 4 r.payload);
            firmware_chunk_size = get_le16 (drop 8 r.payload);
            firmware_offset = 0;
            firmware_session_id = id;
            pending_version = overwrite s.pending_version (take (strlen text + 1) text);
            firmware_upgrading = true;
            firmware_verified = false;
          },
          filled (started_response r) (put_le32 id ++ put_le32 0),
        )
  unfolding answer answer_begin
  answer-begin block h active fresh size e1 e2 e3 e4 (e5, e5', e5'') e6 =
      let text = take (r.payload_length - 10) (drop 10 r.payload) in
      let loader : not s.bootloader_active ≡ false = rw active refl in
      let long : ltb r.payload_length 11 ≡ false = ground arith in
      let some_bytes : (get_le32 r.payload == 0) ≡ false = ground arith in
      let few_bytes : ltb firmware_max_size (get_le32 r.payload) ≡ false = ground arith in
      let some_chunk : (get_le16 (drop 8 r.payload) == 0) ≡ false = ground arith in
      let small_chunk : ltb (max_payload - 8) (get_le16 (drop 8 r.payload)) ≡ false =
        ground arith in
      let ended : (strlen text == length text) ≡ false = ground arith in
      let named : (strlen text == 0) ≡ false = ground arith in
      let short : leb (length s.pending_version) (strlen text) ≡ false = ground arith in
      rw
        (
          h, loader, long, some_bytes, few_bytes, some_chunk, small_chunk, ended, named, short,
          fresh, e6, ended, h,
        )
        refl

  pub answer-data :
      r.type ≡ msg_fw_data
      → s.firmware_upgrading ≡ true
      → 8 < r.payload_length
      → get_le32 r.payload ≡ s.firmware_session_id
      → get_le32 (drop 4 r.payload) ≡ s.firmware_offset
      → r.payload_length - 8 ≤ s.firmware_chunk_size
      → s.firmware_offset + (r.payload_length - 8) ≤ s.flash_size
      → s.flash_size < 2 ^ 32
      → let n = r.payload_length - 8 in
        let written = record (counted s) {
          flash = some (memcpy (flash_bytes s) s.firmware_offset (take n (drop 8 r.payload)));
          firmware_offset = s.firmware_offset + n;
        } in
        answer malloc now_ns s r ≡ (
          with_outage now_ns written,
          filled (started_response r) (put_le32 (s.firmware_offset + n)),
        )
  unfolding answer answer_data
  answer-data h up size id offset fits inside small =
      let kept : u32 (s.firmware_offset + (r.payload_length - 8))
          ≡ s.firmware_offset + (r.payload_length - 8) =
        omega arith in
      rw (h, offset, kept) (ground arith)

  pub answer-end :
      r.type ≡ msg_fw_end
      → s.firmware_upgrading ≡ true
      → r.payload_length ≡ 4
      → get_le32 r.payload ≡ s.firmware_session_id
      → s.firmware_offset ≡ s.flash_size
      → answer malloc now_ns s r ≡ (counted s, started_response r)
  unfolding answer answer_end
  answer-end h up size id all = rw h (ground arith)

  pub answer-verify :
      r.type ≡ msg_fw_verify
      → s.firmware_upgrading ≡ true
      → r.payload_length ≡ 4
      → get_le32 r.payload ≡ s.firmware_session_id
      → s.fail_verify ≡ false
      → actual_crc s ≡ s.expected_firmware_crc
      → answer malloc now_ns s r ≡ (
        record (counted s) { firmware_verified = true },
        filled (started_response r) (put_le32 s.expected_firmware_crc),
      )
  unfolding answer answer_verify
  answer-verify h up size id sound same = rw (h, same) (ground arith)

  pub answer-activate :
      r.type ≡ msg_fw_activate
      → s.firmware_verified ≡ true
      → r.payload_length ≡ 4
      → get_le32 r.payload ≡ s.firmware_session_id
      → answer malloc now_ns s r ≡ (
        record (counted s) {
          firmware_version =
              overwrite s.firmware_version (take (strlen s.pending_version + 1) s.pending_version);
        },
        started_response r,
      )
  unfolding answer answer_activate
  answer-activate h good size id = rw h (ground arith)

  pub answer-reboot :
      r.type ≡ msg_reboot
      → answer malloc now_ns s r ≡ (
        record (counted s) {
          bootloader_active = false;
          firmware_upgrading = false;
          firmware_verified = false;
        },
        started_response r,
      )
  unfolding answer
  answer-reboot h = rw h refl

  pub answer-status :
      r.type ≡ msg_fw_status
      → s.firmware_upgrading ≡ true
      → r.payload_length ≡ 4
      → get_le32 r.payload ≡ s.firmware_session_id
      → answer malloc now_ns s r ≡ (
        counted s,
        filled (started_response r) (put_le32 s.firmware_session_id ++ put_le32 s.firmware_offset),
      )
  unfolding answer answer_status
  answer-status h up size id = rw h (ground arith)
