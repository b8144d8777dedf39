-- ===== src/Status.antt =====
-- include/devmgr/error.h and src/common/error.c: the status codes and their texts.
use Prim.Native.String.{String}
use linux_device_manager.Base.{ℕ, zero, suc, ℤ, pos, negsuc, Bool, true, false, ◌≡◌, arith}

-- `enum devmgr_status`
pub data Status : Type 0 where
  ok invalid nomem overflow underflow crc protocol timeout : Status
  disconnected io state busy not_found limit : Status

-- The value of the enumerator.
abbrev pub code : Status → ℤ
code ok = pos 0
code invalid = negsuc 0
code nomem = negsuc 1
code overflow = negsuc 2
code underflow = negsuc 3
code crc = negsuc 4
code protocol = negsuc 5
code timeout = negsuc 6
code disconnected = negsuc 7
code io = negsuc 8
code state = negsuc 9
code busy = negsuc 10
code not_found = negsuc 11
code limit = negsuc 12

-- The comparison `status == DEVMGR_OK`.
abbrev pub is_ok : Status → Bool
is_ok ok = true
is_ok _ = false

-- The cases -1 to -13 of the switch: `n` stands for -(n + 1).
abbrev error_string : ℕ → String
error_string zero = "invalid argument"
error_string (suc zero) = "out of memory"
error_string (suc (suc zero)) = "overflow"
error_string (suc (suc (suc zero))) = "underflow"
error_string (suc (suc (suc (suc zero)))) = "CRC mismatch"
error_string (suc (suc (suc (suc (suc zero))))) = "protocol error"
error_string (suc (suc (suc (suc (suc (suc zero)))))) = "timeout"
error_string (suc (suc (suc (suc (suc (suc (suc zero))))))) = "disconnected"
error_string (suc (suc (suc (suc (suc (suc (suc (suc zero)))))))) = "I/O error"
error_string (suc (suc (suc (suc (suc (suc (suc (suc (suc zero))))))))) = "invalid state"
error_string (suc (suc (suc (suc (suc (suc (suc (suc (suc (suc zero)))))))))) = "busy"
error_string (suc (suc (suc (suc (suc (suc (suc (suc (suc (suc (suc zero))))))))))) = "not found"
error_string (suc (suc (suc (suc (suc (suc (suc (suc (suc (suc (suc (suc zero)))))))))))) =
    "limit exceeded"
error_string n = "unknown error"

-- `devmgr_status_string`
abbrev status_string : ℤ → String
status_string (pos zero) = "success"
status_string (pos (suc n)) = "unknown error"
status_string (negsuc n) = error_string n

pub is_ok→ok : (s : Status) → is_ok s ≡ true → s ≡ ok
is_ok→ok s h = ground arith
