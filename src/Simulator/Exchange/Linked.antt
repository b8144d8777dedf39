-- ===== src/Simulator/Exchange/Linked.antt =====
-- How the upgrade and the simulated device stand to each other between two rounds.
use linux_device_manager.Base.{
  ℕ, ◌+◌, ◌^◌, ◌≤◌, ◌<◌, ◌≡◌, Bool, true, false, Option, some, List, length, take, strlen, sym, ◌∙◌,
  arith, take-length,
}
use linux_device_manager.Span.{at, AreBytes}
use linux_device_manager.Crc.{crc32}
use linux_device_manager.Upgrade.State.{
  UpgradeState, idle, validating, enter_bootloader, begin, transfer, recover, end, verify, activate,
  reboot, complete, error, Upgrade, version_max,
}
use linux_device_manager.Upgrade.Invariant.{IsUpgrade}
use linux_device_manager.Simulator.State.{Simulator}
use linux_device_manager.Firmware.{firmware_max_size}
use linux_device_manager.Simulator.Answer.{flash_bytes}

-- A version text with its terminator.
abbrev pub version_text : Upgrade → List ℕ
version_text u = take (strlen u.version + 1) u.version

-- What the upgrade and the device say of the update.
pub record Update : Type 0 where
  pub session : ℕ
  pub size : ℕ
  pub crc : ℕ
  pub chunk : ℕ

pub record Device : Type 0 where
  pub upgrading : Bool
  pub flash : Option (List ℕ)
  pub bytes : List ℕ
  pub offset : ℕ
  pub pending_version : List ℕ

-- The device has opened the update that the host names, of the image and the version, and has the
-- start of the image.
pub record Agrees (image version : List ℕ) (host opened : Update) (d : Device) : Type 0 where
  pub upgrading : d.upgrading ≡ true
  pub session : opened.session ≡ host.session
  pub session_word : host.session < 2 ^ 32
  pub size : opened.size ≡ host.size
  pub crc : opened.crc ≡ host.crc
  pub chunk : opened.chunk ≡ host.chunk
  pub block : d.flash ≡ some d.bytes
  pub whole : length d.bytes ≡ host.size
  pub within : d.offset ≤ host.size
  pub same : take d.offset d.bytes ≡ take d.offset image
  pub pending_length : strlen d.pending_version ≡ strlen version
  pub pending : take (strlen version + 1) d.pending_version ≡ take (strlen version + 1) version

abbrev pub Holds : Upgrade → Simulator → Type 0
Holds u s =
    Agrees u.image_data u.version
      (record {
        session = u.session_id;
        size = u.image_size;
        crc = u.image_crc;
        chunk = u.chunk_size;
      })
      (record {
        session = s.firmware_session_id;
        size = s.flash_size;
        crc = s.expected_firmware_crc;
        chunk = s.firmware_chunk_size;
      })
      (record {
        upgrading = s.firmware_upgrading;
        flash = s.flash;
        bytes = flash_bytes s;
        offset = s.firmware_offset;
        pending_version = s.pending_version;
      })

-- The device's firmware version is that of the upgrade.
abbrev pub Reports : Upgrade → Simulator → Type 0
Reports u s = take (strlen u.version + 1) s.firmware_version ≡ version_text u

-- What holds in a state of the upgrade.
abbrev pub Stage : UpgradeState → Upgrade → Simulator → Type 0
Stage enter_bootloader u s = s.firmware_upgrading ≡ false
Stage begin u s = (s.firmware_upgrading ≡ false) × (s.bootloader_active ≡ true)
Stage transfer u s = Holds u s × (s.firmware_offset ≡ u.offset)
Stage recover u s = Holds u s
Stage end u s = Holds u s × (s.firmware_offset ≡ u.image_size)
Stage verify u s = Holds u s × (s.firmware_offset ≡ u.image_size)
Stage activate u s = Holds u s × (s.firmware_offset ≡ u.image_size) × (s.firmware_verified ≡ true)
Stage reboot u s = Holds u s × (s.firmware_offset ≡ u.image_size) × Reports u s
Stage complete u s = (s.flash ≡ some u.image_data) × Reports u s
Stage error u s = Unit
Stage idle u s = ⊥
Stage validating u s = ⊥

-- The image, the version and the device are fit for the update.
pub record Fits (u : Upgrade) (s : Simulator) : Type 0 where
  pub image : length u.image_data ≡ u.image_size
  pub small : u.image_size ≤ firmware_max_size
  pub crc : u.image_crc ≡ crc32 (at u.image_data)
  pub image_bytes : AreBytes u.image_data
  pub named : 0 < strlen u.version
  pub version_array : length u.version ≡ 32
  pub version_fits : strlen u.version ≤ version_max
  pub crc_word : u.image_crc < 2 ^ 32
  pub version_bytes : AreBytes u.version
  pub sound : s.fail_verify ≡ false
  pub pending_array : length s.pending_version ≡ 32
  pub firmware_array : length s.firmware_version ≡ 32

pub record Linked (u : Upgrade) (s : Simulator) : Type 0 where
  pub valid : IsUpgrade u
  pub fits : Fits u s
  pub stage : Stage u.state u s

-- A device that has all of the image has just the image.
pub flash_bytes-Holds :
    (u : Upgrade) (s : Simulator)
    → Holds u s
    → s.firmware_offset ≡ u.image_size
    → length u.image_data ≡ u.image_size
    → flash_bytes s ≡ u.image_data
flash_bytes-Holds u s held all image =
    let n = s.firmware_offset in
    sym (take-length n (flash_bytes s) (omega (arith, held.whole)))
    ∙ held.same
    ∙ take-length n u.image_data (omega arith)
