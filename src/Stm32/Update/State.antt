-- ===== src/Stm32/Update/State.antt =====
-- firmware/stm32f103/bootloader/update.h: the bootloader's state, and its initial value.
use linux_device_manager.Base.{
  ℕ, zero, Bool, true, false, Option, none, some, List, replicate, ℤ, pos, negsuc,
}

-- `NACK_INVALID_STATE` and its kin
abbrev pub nack_invalid_state : ℕ
nack_invalid_state = 2

abbrev pub nack_invalid_payload : ℕ
nack_invalid_payload = 3

abbrev pub nack_offset : ℕ
nack_offset = 5

abbrev pub nack_storage : ℕ
nack_storage = 6

abbrev pub nack_verify : ℕ
nack_verify = 7

-- `enum stm32_update_state`
pub data UpdateState : Type 0 where
  idle receiving transferred verified : UpdateState

-- `struct stm32_flash_ops` over the context that its `void *` points at.
pub record FlashOps (F : Type 0) : Type 0 where
  pub erase : F → ℕ → ℤ × F
  pub write : F → ℕ → List ℕ → ℤ × F
  pub read : F → ℕ → ℕ → ℤ × List ℕ × F
  pub crc32 : F → ℕ → ℕ × F
  pub activate : F → ℕ → ℕ → List ℕ → ℤ × F
  pub reboot : F → F

-- `struct stm32_update_context`, with what `flash_context` points at.
pub record Update (F : Type 0) : Type 0 where
  pub flash : FlashOps F
  pub flash_context : F
  pub state : UpdateState
  pub session_id : ℕ  -- uint32_t
  pub image_size : ℕ  -- uint32_t
  pub image_crc : ℕ  -- uint32_t
  pub next_offset : ℕ  -- uint32_t
  pub chunk_size : ℕ  -- uint16_t
  pub pending_version : List ℕ  -- char[32]

-- A call that returned 0.
abbrev pub is_zero : ℤ → Bool
is_zero (pos zero) = true
is_zero _ = false

abbrev pub is_receiving : UpdateState → Bool
is_receiving receiving = true
is_receiving _ = false

abbrev pub is_transferred : UpdateState → Bool
is_transferred transferred = true
is_transferred _ = false

abbrev pub is_verified : UpdateState → Bool
is_verified verified = true
is_verified _ = false

-- `stm32_update_init`; `none` is a null `flash` or a null member of it.
unfoldable pub init : {F : Type 0} → Update F → Option (FlashOps F) → F → ℤ × Update F
init update none flash_context = (negsuc 0, update)
init update (some flash) flash_context = (
  pos 0,
  record {
    flash = flash;
    flash_context = flash_context;
    state = idle;
    session_id = 1;
    image_size = 0;
    image_crc = 0;
    next_offset = 0;
    chunk_size = 0;
    pending_version = replicate 32 0;
  },
)
