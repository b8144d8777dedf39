-- ===== src/Upgrade/State.antt =====
-- The upgrade's state, its start, its recovery and whether it is active.
use Prim.Native.String.{String}
use linux_device_manager.Base.{
  ℕ, ◌+◌, ◌-◌, ◌^◌, Bool, true, false, not, Option, none, some, List, ◌||◌, ltb, leb, ◌==◌,
  if◌then◌else◌, take, replicate, overwrite, strlen, u8,
}
use linux_device_manager.Status.{Status, ok, invalid, timeout}
use linux_device_manager.Protocol.Constants.{max_payload}

-- `enum devmgr_upgrade_state`
pub data UpgradeState : Type 0 where
  idle validating enter_bootloader begin transfer recover end : UpgradeState
  verify activate reboot complete error : UpgradeState

-- `DEVMGR_UPGRADE_VERSION_MAX`
abbrev pub version_max : ℕ
version_max = 31

-- `DEVMGR_UPGRADE_DEFAULT_CHUNK`
abbrev pub default_chunk : ℕ
default_chunk = 1024

-- `struct devmgr_upgrade`; `version` is the whole array of 32 bytes.
pub record Upgrade : Type 0 where
  pub state : UpgradeState
  pub image_data : List ℕ
  pub image_size : ℕ  -- size_t
  pub image_crc : ℕ  -- uint32_t
  pub version : List ℕ
  pub session_id : ℕ  -- uint32_t
  pub offset : ℕ  -- uint32_t
  pub last_chunk_end : ℕ  -- uint32_t
  pub chunk_size : ℕ  -- uint16_t
  pub chunks_sent : ℕ  -- uint32_t
  pub recovery_attempts : ℕ  -- uint8_t

-- `devmgr_upgrade_init`
unfoldable pub init : Upgrade
init = record {
  state = idle;
  image_data = List.[];
  image_size = 0;
  image_crc = 0;
  version = replicate 32 0;
  session_id = 0;
  offset = 0;
  last_chunk_end = 0;
  chunk_size = 0;
  chunks_sent = 0;
  recovery_attempts = 0;
}

-- `devmgr_upgrade_start` with pointers that are not null.
started : Upgrade → List ℕ → ℕ → ℕ → List ℕ → ℕ → Status × Upgrade
started u image_data image_size image_crc version chunk_size =
    let version_length = strlen version in
    if image_size == 0
      || (ltb (2 ^ 32 - 1) image_size || (chunk_size == 0 || ltb (max_payload - 8) chunk_size))
    then (invalid, u)
    else if version_length == 0 || ltb version_max version_length
    then (invalid, u)
    else (
      ok,
      record init {
        image_data = image_data;
        image_size = image_size;
        image_crc = image_crc;
        version = overwrite (replicate 32 0) (take (version_length + 1) version);
        chunk_size = chunk_size;
        state = enter_bootloader;
      },
    )

-- `devmgr_upgrade_start`; `none` is a null pointer. A refused call leaves the upgrade alone.
unfoldable pub start : Upgrade → Option (List ℕ) → ℕ → ℕ → Option (List ℕ) → ℕ → Status × Upgrade
unfolding started
start u none image_size image_crc version chunk_size = (invalid, u)
start u (some image_data) image_size image_crc none chunk_size = (invalid, u)
start u (some image_data) image_size image_crc (some version) chunk_size =
    started u image_data image_size image_crc version chunk_size

-- `devmgr_upgrade_active`
abbrev active_state : UpgradeState → Bool
active_state idle = false
active_state complete = false
active_state error = false
active_state _ = true

unfoldable pub active : Upgrade → Bool
active u = active_state u.state

-- The states that `devmgr_upgrade_begin_recovery` takes.
abbrev pub recoverable : UpgradeState → Bool
recoverable transfer = true
recoverable recover = true
recoverable _ = false

-- `devmgr_upgrade_begin_recovery`
unfoldable pub begin_recovery : Upgrade → Status × Upgrade
begin_recovery u =
    if u.session_id == 0 || not (recoverable u.state)
    then (Status.state, u)
    else if leb 3 u.recovery_attempts
    then (timeout, record u { state = error })
    else (ok, record u { recovery_attempts = u8 (u.recovery_attempts + 1); state = recover })

-- `devmgr_upgrade_state_string` on the states; its `default` is for other integers.
abbrev state_string : UpgradeState → String
state_string idle = "IDLE"
state_string validating = "VALIDATING"
state_string enter_bootloader = "ENTER_BOOTLOADER"
state_string begin = "BEGIN"
state_string transfer = "TRANSFER"
state_string recover = "RECOVER"
state_string end = "END"
state_string verify = "VERIFY"
state_string activate = "ACTIVATE"
state_string reboot = "REBOOT"
state_string complete = "COMPLETE"
state_string error = "ERROR"
