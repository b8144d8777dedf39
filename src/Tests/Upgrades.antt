-- ===== src/Tests/Upgrades.antt =====
-- src/upgrade/upgrade.c on an image of three bytes.
use linux_device_manager.Base.{ℕ, refl, arith, List, [], ◌∷◌, some, strlen, replicate}
use linux_device_manager.Protocol.Frame.{Frame}
use linux_device_manager.Protocol.Frame.Wire.{zero_frame}
use linux_device_manager.Protocol.Le.{get_le32}
use linux_device_manager.Upgrade.State.{transfer, Upgrade, init, start}
use linux_device_manager.Upgrade.Build.{build_request}
use linux_device_manager.Upgrade.Accept.{accept_response}
use linux_device_manager.Upgrade.Invariant.{IsUpgrade}
use linux_device_manager.Upgrade.Trace.{
  Call, start_call, build_call, response, run, perform, run-IsUpgrade, Any, Confirms,
  completed_was_verified,
}
use linux_device_manager.Upgrade.Requests.{due, AsDue, build_request_lem}

-- An answer with a payload.
abbrev answer : ℕ → List ℕ → Frame
answer n bytes = record zero_frame { type = 128; payload_length = n; payload = bytes }

abbrev opened : List Call
opened =
    start_call (some (1 ∷ 2 ∷ 3 ∷ [])) 3 9 (some (65 ∷ 0 ∷ [])) 2
    ∷ response 16 (answer 0 [])
    ∷ response 17 (answer 8 (1 ∷ 0 ∷ 0 ∷ 0 ∷ 0 ∷ 0 ∷ 0 ∷ 0 ∷ []))
    ∷ []

abbrev verified : List Call
verified =
    start_call (some (1 ∷ 2 ∷ 3 ∷ [])) 3 9 (some (65 ∷ 0 ∷ [])) 2
    ∷ response 16 (answer 0 [])
    ∷ response 17 (answer 8 (1 ∷ 0 ∷ 0 ∷ 0 ∷ 0 ∷ 0 ∷ 0 ∷ 0 ∷ []))
    ∷ build_call
    ∷ response 18 (answer 4 (2 ∷ 0 ∷ 0 ∷ 0 ∷ []))
    ∷ build_call
    ∷ response 18 (answer 4 (3 ∷ 0 ∷ 0 ∷ 0 ∷ []))
    ∷ response 20 (answer 0 [])
    ∷ response 21 (answer 4 (9 ∷ 0 ∷ 0 ∷ 0 ∷ []))
    ∷ []

-- The upgrade in the middle of its transfer.
abbrev sending : Upgrade
sending = record init {
  state = transfer;
  image_data = 1 ∷ 2 ∷ 3 ∷ [];
  image_size = 3;
  image_crc = 9;
  version = 65 ∷ replicate 31 0;
  session_id = 1;
  offset = 2;
  chunk_size = 2;
}

sending-IsUpgrade : IsUpgrade sending
unfolding init strlen
sending-IsUpgrade = ground arith

completed_was_verified_example : Any (Confirms (run init verified).image_crc) verified
unfolding run perform start init accept_response build_request get_le32 strlen
completed_was_verified_example = completed_was_verified verified refl

run-IsUpgrade_example : IsUpgrade (run init opened)
run-IsUpgrade_example = run-IsUpgrade opened (ground arith)

build_request_lem_example : AsDue transfer (due transfer sending) sending (build_request sending)
build_request_lem_example =
    build_request_lem sending sending-IsUpgrade (ground arith) (ground arith)
