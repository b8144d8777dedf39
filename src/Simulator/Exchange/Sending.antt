-- ===== src/Simulator/Exchange/Sending.antt =====
-- What the answers to FW_BEGIN, FW_DATA and FW_STATUS do to the upgrade and to the device.
use linux_device_manager.Base.{
  ℕ, ◌+◌, ◌-◌, ◌^◌, ◌≤◌, ◌<◌, ◌≡◌, refl, sym, ap, ◌∙◌, arith, true, false, Option, some, List, [],
  ◌++◌, length, take, drop, memcpy, strlen, ◌==◌, ◌!=◌, ltb, if-both, length-take, length-drop,
  length-overwrite, take-length, strlen-take,
}
use linux_device_manager.Protocol.Constants.{max_payload, msg_fw_begin, msg_fw_data, msg_fw_status}
use linux_device_manager.Protocol.Le.{
  put_le16, put_le32, get_le16, get_le32, get_le32-put_le32, get_le16-put_le16,
}
use linux_device_manager.Protocol.Frame.{Frame}
use linux_device_manager.Protocol.Frame.Reads.{Reads}
use linux_device_manager.Upgrade.State.{begin, transfer, recover, Upgrade}
use linux_device_manager.Upgrade.Accept.{accept_response}
use linux_device_manager.Simulator.State.{Simulator}
use linux_device_manager.Firmware.{firmware_max_size}
use linux_device_manager.Simulator.Answer.{
  answer, started_response, filled, flash_bytes, is_outage_due,
}
use linux_device_manager.Simulator.Answer.Firmware.{
  counted, new_session, answer-begin, answer-data, answer-status, filled-word, filled-second,
}
use linux_device_manager.Simulator.Exchange.Linked.{Holds, Fits, version_text}
use linux_device_manager.Simulator.Exchange.Steps.{Advances, session-word}
use linux_device_manager.Simulator.Exchange.Arriving.{after, advances, transfer-Holds, begun-Holds}

module _ (malloc : ℕ → Option (List ℕ)) (now_ns : ℕ) (u : Upgrade) (s : Simulator) (r : Frame) where
  pub recover-Advances :
      u.state ≡ recover
      → Holds u s
      → u.image_size ≤ firmware_max_size
      → r.type ≡ msg_fw_status
      → Reads r (put_le32 u.session_id)
      → Advances u s msg_fw_status (answer malloc now_ns s r)
  unfolding accept_response put_le32
  recover-Advances h held small t reads =
      let named : get_le32 r.payload ≡ s.firmware_session_id =
        session-word r u.session_id s.firmware_session_id reads held.session_word held.session in
      let reply =
        filled (started_response r)
          (put_le32 s.firmware_session_id ++ put_le32 s.firmware_offset) in
      let word : get_le32 reply.payload ≡ u.session_id =
        filled-word r s.firmware_session_id (put_le32 s.firmware_offset)
          (omega (arith, held.session_word, held.session)) (omega arith)
        ∙ held.session in
      let second : get_le32 (drop 4 reply.payload) ≡ s.firmware_offset =
        filled-second r s.firmware_session_id s.firmware_offset (omega (arith, held.within)) in
      let own : (u.session_id != u.session_id) ≡ false = ground arith in
      let within : ltb u.image_size s.firmware_offset ≡ false = ground (arith, held.within) in
      let next = record u { offset = s.firmware_offset } in
      let accepted : (accept_response u msg_fw_status reply).1
          ≡ record next { state = after next } =
        rw (t, h, word, second, own, within) refl in
      rw (answer-status malloc now_ns s r t held.upgrading reads.size named) (
        advances u next s (counted s) reply msg_fw_status accepted held refl (λ e. held)
          (rw h (omega arith)) refl refl refl)

  pub transfer-Advances :
      (n : ℕ)
      → u.state ≡ transfer
      → Holds u s × (s.firmware_offset ≡ u.offset)
      → length u.image_data ≡ u.image_size
      → u.image_size ≤ firmware_max_size
      → 0 < n
      → n ≤ u.chunk_size
      → u.offset + n ≤ u.image_size
      → u.last_chunk_end ≡ u.offset + n
      → r.type ≡ msg_fw_data
      → Reads r
          (put_le32 u.session_id ++ (put_le32 u.offset ++ take n (drop u.offset u.image_data)))
      → Advances u s msg_fw_data (answer malloc now_ns s r)
  unfolding accept_response put_le32
  transfer-Advances n h (held, at_offset) image small positive chunk inside last t reads =
      let piece = take n (drop u.offset u.image_data) in
      let size : length piece ≡ n =
        omega
          (arith, length-take n (drop u.offset u.image_data), length-drop u.offset u.image_data) in
      let named : get_le32 r.payload ≡ s.firmware_session_id =
        reads.word (omega arith)
        ∙ get_le32-put_le32 u.session_id (put_le32 u.offset ++ piece) held.session_word
        ∙ sym held.session in
      let placed : get_le32 (drop 4 r.payload) ≡ s.firmware_offset =
        reads.second (omega arith)
        ∙ get_le32-put_le32 u.offset piece (omega arith)
        ∙ sym at_offset in
      let count : r.payload_length - 8 ≡ n = omega (arith, reads.size, size) in
      let bytes : take n (drop 8 r.payload) ≡ piece =
        let text = put_le32 u.session_id ++ (put_le32 u.offset ++ piece) in
        let behind : n ≡ length text - 8 = omega (arith, size) in
        ap (λ (k : ℕ). take k (drop 8 r.payload)) behind ∙ reads.rest in
      let reply = filled (started_response r) (put_le32 (s.firmware_offset + n)) in
      let word : get_le32 reply.payload ≡ s.firmware_offset + n =
        filled-word r (s.firmware_offset + n) [] (omega arith) (omega arith) in
      let next = record u { offset = s.firmware_offset + n } in
      let due : (s.firmware_offset + n != u.last_chunk_end) ≡ false = ground arith in
      let within : ltb u.image_size (s.firmware_offset + n) ≡ false = ground arith in
      let accepted : (accept_response u msg_fw_data reply).1 ≡ record next { state = after next } =
        rw (t, h, word, due, within) refl in
      let written = record (counted s) {
        flash = some (memcpy (flash_bytes s) s.firmware_offset piece);
        firmware_offset = s.firmware_offset + n;
      } in
      let held' : Holds next written =
        transfer-Holds u s piece n held (sym size) (omega arith)
          (ap (λ (k : ℕ). take n (drop k u.image_data)) (sym at_offset)) in
      let moved : (s' : Simulator)
          → Holds next s'
          → s'.firmware_offset ≡ s.firmware_offset + n
          → s'.fail_verify ≡ s.fail_verify
          → length s'.pending_version ≡ length s.pending_version
          → s'.firmware_version ≡ s.firmware_version
          → Advances u s msg_fw_data (s', reply) =
        λ s' a b.
          advances u next s s' reply msg_fw_data accepted a b (λ e. a) (rw h (omega arith)) in
      rw
        (
          answer-data malloc now_ns s r t held.upgrading (omega (arith, reads.size, size)) named
              placed (omega (arith, count, held.chunk)) (omega (arith, count, held.size))
              (omega (arith, held.size)),
          count,
          bytes,
        )
        (if-both (λ s'. Advances u s msg_fw_data (s', reply)) (is_outage_due written) _ written
          (moved _ held' refl refl refl refl) (moved written held' refl refl refl refl))

  pub begin-Advances :
      (block : List ℕ)
      → u.state ≡ begin
      → (s.firmware_upgrading ≡ false) × (s.bootloader_active ≡ true)
      → Fits u s
      → 0 < u.image_size
      → 0 < u.chunk_size
      → u.chunk_size ≤ max_payload - 8
      → malloc u.image_size ≡ some block
      → length block ≡ u.image_size
      → r.type ≡ msg_fw_begin
      → Reads r (
          put_le32 u.image_size
          ++ (put_le32 u.image_crc ++ (put_le16 u.chunk_size ++ version_text u)))
      → Advances u s msg_fw_begin (answer malloc now_ns s r)
  unfolding accept_response put_le32 put_le16
  begin-Advances block h (quiet, loader) f positive some_chunk chunk_fits got whole t reads =
      let text = take (r.payload_length - 10) (drop 10 r.payload) in
      let size : length (version_text u) ≡ strlen u.version + 1 =
        omega
          (arith, f.version_array, f.version_fits, length-take (strlen u.version + 1) u.version) in
      let first : get_le32 r.payload ≡ u.image_size =
        reads.word (omega arith) ∙ get_le32-put_le32 u.image_size _ (omega (arith, f.small)) in
      let second : get_le32 (drop 4 r.payload) ≡ u.image_crc =
        reads.second (omega arith) ∙ get_le32-put_le32 u.image_crc _ f.crc_word in
      let third : get_le16 (drop 8 r.payload) ≡ u.chunk_size =
        reads.third (omega arith) ∙ get_le16-put_le16 u.chunk_size (version_text u) (omega arith) in
      let e : text ≡ version_text u =
        let whole_text =
          put_le32 u.image_size
          ++ (put_le32 u.image_crc ++ (put_le16 u.chunk_size ++ version_text u)) in
        let behind : r.payload_length - 10 ≡ length whole_text - 10 = omega (arith, reads.size) in
        ap (λ (k : ℕ). take k (drop 10 r.payload)) behind ∙ reads.text in
      let ended : strlen text ≡ strlen u.version = ap strlen e ∙ strlen-take u.version in
      let all : take (strlen text + 1) text ≡ text =
        take-length (strlen text + 1) text (omega (arith, ap length e)) in
      let id = new_session s in
      let id_word : id < 2 ^ 32 = ground arith in
      let reply = filled (started_response r) (put_le32 id ++ put_le32 0) in
      let word : get_le32 reply.payload ≡ id =
        filled-word r id (put_le32 0) id_word (omega arith) in
      let word' : get_le32 (drop 4 reply.payload) ≡ 0 = filled-second r id 0 (omega arith) in
      let open_session : (id == 0) ≡ false = ground arith in
      let within : ltb u.image_size 0 ≡ false = ground arith in
      let next = record u { session_id = id; offset = 0 } in
      let accepted : (accept_response u msg_fw_begin reply).1 ≡ record next { state = after next } =
        rw (t, h, word, word', open_session, within) refl in
      rw
        (
          answer-begin malloc now_ns s r block t loader quiet
              (omega (arith, reads.size, size, f.named)) (rw first (omega arith)) (rw first f.small)
              (rw third (omega arith)) (rw third chunk_fits)
              (
                omega (arith, f.named, ended),
                omega (arith, ended, ap length e),
                omega (arith, ended, f.version_fits, f.pending_array),
              )
              (rw first got),
          first,
          second,
          third,
          all,
        )
        (advances u next s _ reply msg_fw_begin accepted
          (begun-Holds u s id block text f id_word whole e) refl (rw h (λ c. ground arith))
          (rw h (omega arith)) refl (length-overwrite s.pending_version text) refl)
