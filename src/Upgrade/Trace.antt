-- ===== src/Upgrade/Trace.antt =====
-- What every sequence of calls on a new upgrade keeps true.
use linux_device_manager.Base.{
  ℕ, ◌≡◌, ◌⊎◌, refl, ap, ◌∙◌, inl, inr, arith, Bool, true, false, Option, none, some, List, [], ◌∷◌,
  All, length,
}
use linux_device_manager.Protocol.Constants.{msg_fw_verify}
use linux_device_manager.Protocol.Le.{get_le32}
use linux_device_manager.Protocol.Frame.{Frame}
use linux_device_manager.Upgrade.State.{
  UpgradeState, activate, reboot, complete, Upgrade, init, start, begin_recovery,
}
use linux_device_manager.Upgrade.Build.{build_request}
use linux_device_manager.Upgrade.Accept.{accept_response}
use linux_device_manager.Upgrade.Invariant.{
  IsUpgrade, init-IsUpgrade, start-IsUpgrade-some, build_request-IsUpgrade,
  accept_response-IsUpgrade, begin_recovery-IsUpgrade,
}

-- A call of the interface with its arguments.
pub data Call : Type 0 where
  start_call : Option (List ℕ) → ℕ → ℕ → Option (List ℕ) → ℕ → Call
  build_call : Call
  response : ℕ → Frame → Call
  recovery : Call

-- The image pointer of a start has `image_size` bytes behind it.
abbrev pub IsCall : Call → Type 0
IsCall (start_call (some image) size crc version chunk) = length image ≡ size
IsCall (start_call none size crc version chunk) = Unit
IsCall build_call = Unit
IsCall (response type f) = Unit
IsCall recovery = Unit

unfoldable pub perform : Upgrade → Call → Upgrade
perform u (start_call image size crc version chunk) = (start u image size crc version chunk).1
perform u build_call = (build_request u).upgrade
perform u (response type f) = (accept_response u type f).1
perform u recovery = (begin_recovery u).1

unfoldable pub run : Upgrade → List Call → Upgrade
run u [] = u
run u (call ∷ calls) = run (perform u call) calls

start-null :
    (u : Upgrade) (size crc : ℕ) (version : Option (List ℕ)) (chunk : ℕ)
    → (start u none size crc version chunk).1 ≡ u
unfolding start
start-null u size crc version chunk = refl

perform-IsUpgrade :
    (u : Upgrade) (call : Call) → IsCall call → IsUpgrade u → IsUpgrade (perform u call)
unfolding perform
perform-IsUpgrade u (start_call none size crc version chunk) h v = rw start-null v
perform-IsUpgrade u (start_call (some image) size crc version chunk) h v =
    start-IsUpgrade-some u image size crc version chunk h v
perform-IsUpgrade u build_call h v = build_request-IsUpgrade u v
perform-IsUpgrade u (response type f) h v = accept_response-IsUpgrade u type f v
perform-IsUpgrade u recovery h v = begin_recovery-IsUpgrade u v

run_from-IsUpgrade :
    (calls : List Call) (u : Upgrade) → All IsCall calls → IsUpgrade u → IsUpgrade (run u calls)
unfolding run
run_from-IsUpgrade [] u h v = v
run_from-IsUpgrade (call ∷ calls) u h v =
    run_from-IsUpgrade calls (perform u call) h.1 (perform-IsUpgrade u call h.0 v)

-- After any calls on a new upgrade, with starts whose image has the stated size: a running
-- upgrade has its whole image, of a positive 32-bit size, and a chunk size that fits a frame; in
-- a device session the session number is not 0 and the offset is within the image, short of its
-- end while chunks are sent and at its end from FW_END on; and at most three recoveries began.
pub run-IsUpgrade : (calls : List Call) → All IsCall calls → IsUpgrade (run init calls)
run-IsUpgrade calls h = run_from-IsUpgrade calls init h init-IsUpgrade

-- The states that lie behind the verification.
abbrev pub is_verified : UpgradeState → Bool
is_verified activate = true
is_verified reboot = true
is_verified complete = true
is_verified _ = false

-- The device's answer to FW_VERIFY with the CRC `crc`.
abbrev pub Confirms : ℕ → Call → Type 0
Confirms crc (response type f) =
    (type ≡ msg_fw_verify) × (f.payload_length ≡ 4) × (get_le32 f.payload ≡ crc)
Confirms crc _ = ⊥

abbrev pub Any : (Call → Type 0) → List Call → Type 0
Any P [] = ⊥
Any P (call ∷ calls) = P call ⊎ Any P calls

start_unverified :
    (u : Upgrade) (image : Option (List ℕ)) (size crc : ℕ) (version : Option (List ℕ)) (chunk : ℕ)
    → is_verified (start u image size crc version chunk).1.state ≡ true
    → (start u image size crc version chunk).1 ≡ u
unfolding start
start_unverified u image size crc version chunk h = ground arith

build_keeps :
    (u : Upgrade)
    → ((build_request u).upgrade.state ≡ u.state)
      × ((build_request u).upgrade.image_crc ≡ u.image_crc)
unfolding build_request
build_keeps u = ground arith

recovery_unverified :
    (u : Upgrade) → is_verified (begin_recovery u).1.state ≡ true → (begin_recovery u).1 ≡ u
unfolding begin_recovery
recovery_unverified u h = ground arith

response_verifies :
    (u : Upgrade) (type : ℕ) (f : Frame)
    → let u' = (accept_response u type f).1 in
      is_verified u'.state ≡ true
      → ((is_verified u.state ≡ true) ⊎ Confirms u.image_crc (response type f))
        × (u'.image_crc ≡ u.image_crc)
unfolding accept_response
response_verifies u type f h = ground arith

perform_verifies :
    (u : Upgrade) (call : Call)
    → is_verified (perform u call).state ≡ true
    → ((is_verified u.state ≡ true) ⊎ Confirms u.image_crc call)
      × ((perform u call).image_crc ≡ u.image_crc)
unfolding perform
perform_verifies u (start_call image size crc version chunk) h =
    let same = start_unverified u image size crc version chunk h in
    (inl (rw (← same) h), ap (λ (x : Upgrade). x.image_crc) same)
perform_verifies u build_call h = let (same, crc) = build_keeps u in (inl (rw same at h), crc)
perform_verifies u (response type f) h = response_verifies u type f h
perform_verifies u recovery h =
    let same = recovery_unverified u h in
    (inl (rw (← same) h), ap (λ (x : Upgrade). x.image_crc) same)

completed_from :
    (calls : List Call) (u : Upgrade)
    → is_verified (run u calls).state ≡ true
    → ((is_verified u.state ≡ true) × ((run u calls).image_crc ≡ u.image_crc))
      ⊎ Any (Confirms (run u calls).image_crc) calls
unfolding run
completed_from [] u h = inl (h, refl)
completed_from (call ∷ calls) u h = elim (completed_from calls (perform u call) h) [
  | inr later ↦ inr (inr later)
  | inl now ↦
      let (how, crc) = perform_verifies u call now.0 in
      elim how [
        | inl before ↦ inl (before, now.1 ∙ crc)
        | inr confirms ↦ inr (inl (rw (now.1 ∙ crc) confirms))
      ]
]

-- An upgrade that is activating, rebooting or complete after some calls on a new one was
-- answered, in one of these calls, to an FW_VERIFY request by four bytes that read as its image's
-- CRC.
pub completed_was_verified :
    (calls : List Call)
    → is_verified (run init calls).state ≡ true
    → Any (Confirms (run init calls).image_crc) calls
unfolding init
completed_was_verified calls h = elim (completed_from calls init h) [
  | inl before ↦ cc (before.0)
  | inr found ↦ found
]
