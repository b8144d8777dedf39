-- ===== src/Upgrade/Invariant.antt =====
-- What holds of an upgrade between calls, and that every call keeps it.
use linux_device_manager.Base.{
  ℕ, ◌+◌, ◌-◌, ◌^◌, ◌≤◌, ◌<◌, ◌≡◌, ◌≢◌, arith, Bool, true, false, Option, none, some, List, length,
  take, replicate, strlen, length-overwrite, length-replicate, strlen-stored,
}
use linux_device_manager.Protocol.Constants.{max_payload}
use linux_device_manager.Protocol.Frame.{Frame}
use linux_device_manager.Upgrade.State.{
  UpgradeState, idle, validating, transfer, recover, end, verify, activate, reboot, complete, error,
  Upgrade, init, start, version_max, begin_recovery,
}
use linux_device_manager.Upgrade.Build.{build_request}
use linux_device_manager.Upgrade.Accept.{accept_response}

-- The states between a start and the end.
abbrev pub is_running : UpgradeState → Bool
is_running idle = false
is_running validating = false
is_running complete = false
is_running error = false
is_running _ = true

-- The states in which the device has opened a session.
abbrev in_session : UpgradeState → Bool
in_session transfer = true
in_session recover = true
in_session end = true
in_session verify = true
in_session activate = true
in_session reboot = true
in_session _ = false

-- The states in which the device has the whole image.
abbrev is_sent : UpgradeState → Bool
is_sent end = true
is_sent verify = true
is_sent activate = true
is_sent reboot = true
is_sent _ = false

pub record IsUpgrade (u : Upgrade) : Type 0 where
  pub image : is_running u.state ≡ true → length u.image_data ≡ u.image_size
  pub size_positive : is_running u.state ≡ true → 0 < u.image_size
  pub size_word : is_running u.state ≡ true → u.image_size < 2 ^ 32
  pub chunk_positive : is_running u.state ≡ true → 0 < u.chunk_size
  pub chunk_fits : is_running u.state ≡ true → u.chunk_size ≤ max_payload - 8
  pub version_array : is_running u.state ≡ true → length u.version ≡ 32
  pub version_fits : is_running u.state ≡ true → strlen u.version ≤ version_max
  pub session_open : in_session u.state ≡ true → u.session_id ≢ 0
  pub offset_in : in_session u.state ≡ true → u.offset ≤ u.image_size
  pub more_to_send : u.state ≡ transfer → u.offset < u.image_size
  pub all_sent : is_sent u.state ≡ true → u.offset ≡ u.image_size
  pub recoveries : u.recovery_attempts ≤ 3

pub init-IsUpgrade : IsUpgrade init
unfolding init
init-IsUpgrade = ground arith

pub build_request-IsUpgrade : (u : Upgrade) → IsUpgrade u → IsUpgrade (build_request u).upgrade
unfolding build_request
build_request-IsUpgrade u v = ground arith

pub accept_response-IsUpgrade :
    (u : Upgrade) (type : ℕ) (f : Frame) → IsUpgrade u → IsUpgrade (accept_response u type f).1
unfolding accept_response
accept_response-IsUpgrade u type f v = ground arith

pub begin_recovery-IsUpgrade : (u : Upgrade) → IsUpgrade u → IsUpgrade (begin_recovery u).1
unfolding begin_recovery
begin_recovery-IsUpgrade u v = ground arith

-- A start makes the invariant hold of the new upgrade; a refused one leaves the old upgrade.
pub start-IsUpgrade-some :
    (u : Upgrade) (image : List ℕ) (size crc : ℕ) (version : Option (List ℕ)) (chunk : ℕ)
    → length image ≡ size
    → IsUpgrade u
    → IsUpgrade (start u (some image) size crc version chunk).1
unfolding start init
start-IsUpgrade-some u image size crc none chunk h v = v
start-IsUpgrade-some u image size crc (some version) chunk h v = ground (
  arith,
  length-overwrite (replicate 32 0) (take (strlen version + 1) version),
  length-replicate {A = ℕ} 32 0,
  strlen-stored 32 version,
)
