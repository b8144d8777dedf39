-- ===== src/Simulator/Exchange/Steps.antt =====
-- What one answered request does to the upgrade and to the device, state by state.
use linux_device_manager.Base.{
  ℕ, ◌+◌, ◌-◌, ◌^◌, ◌<◌, ◌≡◌, ◌≢◌, refl, sym, ap, ◌∙◌, arith, true, false, Option, some, List, [],
  length, take, overwrite, strlen, length-take, length-overwrite, take-length, take-overwrite,
}
use linux_device_manager.Protocol.Constants.{
  msg_enter_bootloader, msg_fw_end, msg_fw_verify, msg_fw_activate, msg_reboot,
}
use linux_device_manager.Protocol.Le.{put_le32, get_le32, get_le32-put_le32}
use linux_device_manager.Protocol.Frame.{Frame}
use linux_device_manager.Protocol.Frame.Reads.{Reads}
use linux_device_manager.Upgrade.State.{
  UpgradeState, enter_bootloader, begin, transfer, recover, end, verify, activate, reboot, error,
  Upgrade, recoverable,
}
use linux_device_manager.Upgrade.Accept.{accept_response}
use linux_device_manager.Simulator.State.{Simulator}
use linux_device_manager.Simulator.Answer.{answer, started_response, filled, actual_crc}
use linux_device_manager.Simulator.Answer.Firmware.{
  answer-enter, answer-end, answer-verify, answer-activate, answer-reboot, filled-word,
}
use linux_device_manager.Simulator.Exchange.Linked.{
  Holds, Reports, Stage, Fits, version_text, flash_bytes-Holds,
}

-- How many requests are left at most.
abbrev pub rank_at : UpgradeState → ℕ → ℕ → ℕ
rank_at enter_bootloader size offset = size + 6
rank_at begin size offset = size + 5
rank_at recover size offset = size + 5
rank_at transfer size offset = size - offset + 4
rank_at end size offset = 4
rank_at verify size offset = 3
rank_at activate size offset = 2
rank_at reboot size offset = 1
rank_at _ size offset = 0

abbrev pub rank : Upgrade → ℕ
rank u = rank_at u.state u.image_size u.offset

-- What the device's answer to a request leaves, of the upgrade `u` that sent it and the device `s`
-- that it came to.
pub record Advances (u : Upgrade) (s : Simulator) (type : ℕ) (answered : Simulator × Frame)
    : Type 0 where
  pub stage : let u' = (accept_response u type answered.1).1 in Stage u'.state u' answered.0
  pub faster : rank (accept_response u type answered.1).1 < rank u
  pub alive : (accept_response u type answered.1).1.state ≢ error
  pub held : recoverable u.state ≡ true → Holds u answered.0
  pub sound : answered.0.fail_verify ≡ s.fail_verify
  pub pending_array : length answered.0.pending_version ≡ length s.pending_version
  pub firmware_array : length answered.0.firmware_version ≡ length s.firmware_version

-- The session number that a request names.
pub session-word :
    (r : Frame) (id own : ℕ)
    → Reads r (put_le32 id)
    → id < 2 ^ 32
    → own ≡ id
    → get_le32 r.payload ≡ own
unfolding put_le32
session-word r id own reads h e = reads.word (omega arith) ∙ get_le32-put_le32 id [] h ∙ sym e

module _ (malloc : ℕ → Option (List ℕ)) (now_ns : ℕ) (u : Upgrade) (s : Simulator) (r : Frame) where
  pub enter-Advances :
      u.state ≡ enter_bootloader
      → s.firmware_upgrading ≡ false
      → r.type ≡ msg_enter_bootloader
      → Advances u s msg_enter_bootloader (answer malloc now_ns s r)
  unfolding accept_response
  enter-Advances h quiet t = rw (answer-enter malloc now_ns s r t) (record {
    stage = rw (t, h) (quiet, refl);
    faster = rw (t, h) (omega arith);
    alive = rw (t, h) (ground arith);
    held = rw h (λ e. ground arith);
    sound = refl;
    pending_array = refl;
    firmware_array = refl;
  })

  module _ (reads : Reads r (put_le32 u.session_id)) where
    pub end-Advances :
        u.state ≡ end
        → Holds u s × (s.firmware_offset ≡ u.image_size)
        → r.type ≡ msg_fw_end
        → Advances u s msg_fw_end (answer malloc now_ns s r)
    unfolding accept_response put_le32
    end-Advances h (held, all) t =
        let named : get_le32 r.payload ≡ s.firmware_session_id =
          session-word r u.session_id s.firmware_session_id reads held.session_word held.session in
        rw (answer-end malloc now_ns s r t held.upgrading reads.size named (all ∙ sym held.size))
          (record {
            stage = rw (t, h) (held, all);
            faster = rw (t, h) (omega arith);
            alive = rw (t, h) (ground arith);
            held = rw h (λ e. ground arith);
            sound = refl;
            pending_array = refl;
            firmware_array = refl;
          })

    pub verify-Advances :
        u.state ≡ verify
        → Holds u s × (s.firmware_offset ≡ u.image_size)
        → Fits u s
        → r.type ≡ msg_fw_verify
        → Advances u s msg_fw_verify (answer malloc now_ns s r)
    unfolding accept_response put_le32
    verify-Advances h (held, all) f t =
        let named : get_le32 r.payload ≡ s.firmware_session_id =
          session-word r u.session_id s.firmware_session_id reads held.session_word held.session in
        let block : s.flash ≡ some u.image_data =
          held.block ∙ ap some (flash_bytes-Holds u s held all f.image) in
        let sum : actual_crc s ≡ s.expected_firmware_crc =
          rw
            (
              block,
              held.size,
              held.crc,
              take-length u.image_size u.image_data (omega (arith, f.image)),
            )
            (sym f.crc) in
        let word : get_le32 (filled (started_response r) (put_le32 s.expected_firmware_crc)).payload
            ≡ u.image_crc =
          filled-word r s.expected_firmware_crc [] (omega (arith, f.crc_word, held.crc))
            (omega arith)
          ∙ held.crc in
        rw (answer-verify malloc now_ns s r t held.upgrading reads.size named f.sound sum) (record {
          stage = rw (t, h, word) (ground arith);
          faster = rw (t, h, word) (ground arith);
          alive = rw (t, h, word) (ground arith);
          held = rw h (λ e. ground arith);
          sound = refl;
          pending_array = refl;
          firmware_array = refl;
        })

    pub activate-Advances :
        u.state ≡ activate
        → Holds u s × (s.firmware_offset ≡ u.image_size) × (s.firmware_verified ≡ true)
        → Fits u s
        → r.type ≡ msg_fw_activate
        → Advances u s msg_fw_activate (answer malloc now_ns s r)
    unfolding accept_response put_le32
    activate-Advances h (held, all, good) f t =
        let named : get_le32 r.payload ≡ s.firmware_session_id =
          session-word r u.session_id s.firmware_session_id reads held.session_word held.session in
        let text : take (strlen s.pending_version + 1) s.pending_version ≡ version_text u =
          ap (λ (n : ℕ). take (n + 1) s.pending_version) held.pending_length ∙ held.pending in
        let size : length (version_text u) ≡ strlen u.version + 1 =
          omega (
            arith,
            f.version_array,
            f.version_fits,
            length-take (strlen u.version + 1) u.version,
          ) in
        let stored : Reports u
            (record s { firmware_version = overwrite s.firmware_version (version_text u) }) =
          take-overwrite s.firmware_version (version_text u) (strlen u.version + 1) (sym size)
            (omega (arith, f.version_fits, f.firmware_array)) in
        let kept : length (overwrite s.firmware_version (version_text u))
            ≡ length s.firmware_version =
          length-overwrite s.firmware_version (version_text u) in
        rw (answer-activate malloc now_ns s r t good reads.size named, text)
          (record {
            stage = rw (t, h) (held, all, stored);
            faster = rw (t, h) (omega arith);
            alive = rw (t, h) (ground arith);
            held = rw h (λ e. ground arith);
            sound = refl;
            pending_array = refl;
            firmware_array = kept;
          })

  pub reboot-Advances :
      u.state ≡ reboot
      → Holds u s × (s.firmware_offset ≡ u.image_size) × Reports u s
      → length u.image_data ≡ u.image_size
      → r.type ≡ msg_reboot
      → Advances u s msg_reboot (answer malloc now_ns s r)
  unfolding accept_response
  reboot-Advances h (held, all, reports) image t = rw (answer-reboot malloc now_ns s r t) (record {
    stage = rw (t, h) (held.block ∙ ap some (flash_bytes-Holds u s held all image), reports);
    faster = rw (t, h) (omega arith);
    alive = rw (t, h) (ground arith);
    held = rw h (λ e. ground arith);
    sound = refl;
    pending_array = refl;
    firmware_array = refl;
  })
