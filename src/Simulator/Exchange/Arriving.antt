-- ===== src/Simulator/Exchange/Arriving.antt =====
-- The device after FW_BEGIN and after FW_DATA, and the upgrade at an offset.
use linux_device_manager.Base.{
  ℕ, ◌+◌, ◌-◌, ◌^◌, ◌≤◌, ◌<◌, ◌≡◌, ◌≢◌, refl, ap, ◌∙◌, arith, true, false, some, List, ◌++◌, length,
  take, drop, overwrite, memcpy, ◌==◌, if◌then◌else◌, length-memcpy, take-memcpy, take-append_drop,
  stored_text,
}
use linux_device_manager.Protocol.Frame.{Frame}
use linux_device_manager.Upgrade.State.{UpgradeState, transfer, end, error, Upgrade, recoverable}
use linux_device_manager.Upgrade.Accept.{accept_response}
use linux_device_manager.Simulator.State.{Simulator}
use linux_device_manager.Simulator.Answer.{flash_bytes}
use linux_device_manager.Simulator.Exchange.Linked.{Holds, Stage, Fits, version_text}
use linux_device_manager.Simulator.Exchange.Steps.{Advances, rank, rank_at}

-- The state that an acknowledged offset leads to.
abbrev pub after : Upgrade → UpgradeState
after u = if u.offset == u.image_size then end else transfer

record Arrives (u : Upgrade) (s : Simulator) : Type 0 where
  stage : Stage (after u) (record u { state = after u }) s
  left : rank_at (after u) u.image_size u.offset ≤ u.image_size - u.offset + 4
  alive : after u ≢ error

arrives : (u : Upgrade) (s : Simulator) → Holds u s → s.firmware_offset ≡ u.offset → Arrives u s
arrives u s held e = record { stage = ground arith; left = ground arith; alive = ground arith }

-- An answer after which the upgrade is `next`, at the offset that the device has.
pub advances :
    (u next : Upgrade) (s s' : Simulator) (f : Frame) (type : ℕ)
    → (accept_response u type f).1 ≡ record next { state = after next }
    → Holds next s'
    → s'.firmware_offset ≡ next.offset
    → (recoverable u.state ≡ true → Holds u s')
    → next.image_size - next.offset + 4 < rank u
    → s'.fail_verify ≡ s.fail_verify
    → length s'.pending_version ≡ length s.pending_version
    → s'.firmware_version ≡ s.firmware_version
    → Advances u s type (s', f)
advances u next s s' f type e held at_offset kept fewer sound array version =
    let arrived = arrives next s' held at_offset in
    record {
      stage = rw e arrived.stage;
      faster = rw e (omega (arith, arrived.left));
      alive = rw e arrived.alive;
      held = kept;
      sound = sound;
      pending_array = array;
      firmware_array = ap length version;
    }

module _ (u : Upgrade) (s : Simulator) where
  -- The device with a chunk more.
  pub transfer-Holds :
      (piece : List ℕ) (n : ℕ)
      → Holds u s
      → n ≡ length piece
      → s.firmware_offset + n ≤ u.image_size
      → piece ≡ take n (drop s.firmware_offset u.image_data)
      → Holds u (record s {
        flash = some (memcpy (flash_bytes s) s.firmware_offset piece);
        firmware_offset = s.firmware_offset + n;
      })
  transfer-Holds piece n held size fits e = record {
    upgrading = held.upgrading;
    session = held.session;
    session_word = held.session_word;
    size = held.size;
    crc = held.crc;
    chunk = held.chunk;
    block = refl;
    whole = length-memcpy (flash_bytes s) s.firmware_offset piece ∙ held.whole;
    within = fits;
    same =
        take-memcpy (flash_bytes s) s.firmware_offset (s.firmware_offset + n) piece (omega arith)
          (omega (arith, held.whole))
        ∙ ap (λ l. l ++ piece) held.same
        ∙ ap (λ l. take s.firmware_offset u.image_data ++ l) e
        ∙ take-append_drop s.firmware_offset n (s.firmware_offset + n) u.image_data refl;
    pending_length = held.pending_length;
    pending = held.pending;
  }

  -- The device after FW_BEGIN.
  pub begun-Holds :
      (id : ℕ) (block text : List ℕ)
      → Fits u s
      → id < 2 ^ 32
      → length block ≡ u.image_size
      → text ≡ version_text u
      → Holds
          (record u { session_id = id; offset = 0 })
          (record s {
            flash = some block;
            flash_size = u.image_size;
            expected_firmware_crc = u.image_crc;
            firmware_chunk_size = u.chunk_size;
            firmware_offset = 0;
            firmware_session_id = id;
            pending_version = overwrite s.pending_version text;
            firmware_upgrading = true;
            firmware_verified = false;
          })
  begun-Holds id block text f word whole e =
      let old = s.pending_version in
      let (ended, stored) =
        stored_text old u.version (omega (arith, f.version_array, f.version_fits))
          (omega (arith, f.pending_array, f.version_fits)) in
      record {
        upgrading = refl;
        session = refl;
        session_word = word;
        size = refl;
        crc = refl;
        chunk = refl;
        block = refl;
        whole = whole;
        within = omega arith;
        same = refl;
        pending_length = rw e ended;
        pending = rw e stored;
      }
