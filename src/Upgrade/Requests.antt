-- ===== src/Upgrade/Requests.antt =====
-- The requests that `devmgr_upgrade_build_request` builds, by what they say on the wire.
use linux_device_manager.Base.{
  ℕ, ◌+◌, ◌-◌, ◌≤◌, ◌<◌, ◌≡◌, refl, sym, ap, ◌∙◌, arith, false, Option, none, some, List, [], ◌∷◌,
  ◌++◌, length, take, drop, overwrite, memcpy, strlen, length-overwrite, memcpy_then, overwrite-nil,
  ◌==◌, take-overwrite, length-take, length-drop, u32, ltb, leb, if◌then◌else◌,
}
use Prim.Native.Nat.{min}
use linux_device_manager.Status.{ok}
use linux_device_manager.Span.{AreBytes, take-AreBytes, drop-AreBytes}
use linux_device_manager.Protocol.Constants.{
  max_payload, msg_enter_bootloader, msg_fw_begin, msg_fw_data, msg_fw_status, msg_fw_end,
  msg_fw_verify, msg_fw_activate, msg_reboot, flag_ack_required,
}
use linux_device_manager.Protocol.Le.{put_le16, put_le32, put_le32-AreBytes, length-put_le32}
use linux_device_manager.Protocol.Frame.Wire.{
  Message, message, IsFrame, zero_frame, length-zero_frame,
}
use linux_device_manager.Upgrade.State.{
  UpgradeState, idle, validating, enter_bootloader, begin, transfer, recover, end, verify, activate,
  reboot, complete, error, Upgrade, version_max,
}
use linux_device_manager.Upgrade.Build.{
  Built, sent, build_session, build_begin, build_transfer, refused, build, build_request,
}
use linux_device_manager.Upgrade.Invariant.{IsUpgrade}

-- The number of image bytes in the next FW_DATA request.
abbrev pub next_chunk : Upgrade → ℕ
next_chunk u = min u.chunk_size (u.image_size - u.offset)

-- The type and payload of the request that is due in a state: those of docs/protocol.md, but in
-- FW_BEGIN the chunk size stands before the version, where the table there has it behind.
abbrev pub due : UpgradeState → Upgrade → Option (ℕ × List ℕ)
due enter_bootloader u = some (msg_enter_bootloader, [])
due begin u = some (
  msg_fw_begin,
  put_le32 u.image_size
      ++ (put_le32 u.image_crc ++ (put_le16 u.chunk_size ++ take (strlen u.version + 1) u.version)),
)
due transfer u = some (
  msg_fw_data,
  put_le32 u.session_id ++ (put_le32 u.offset ++ take (next_chunk u) (drop u.offset u.image_data)),
)
due recover u = some (msg_fw_status, put_le32 u.session_id)
due end u = some (msg_fw_end, put_le32 u.session_id)
due verify u = some (msg_fw_verify, put_le32 u.session_id)
due activate u = some (msg_fw_activate, put_le32 u.session_id)
due reboot u = some (msg_reboot, 0 ∷ [])
due _ u = none

-- The request as a message; the sequence is filled in by the session.
abbrev pub request : ℕ → List ℕ → Message
request type payload = record {
  type = type;
  flags = flag_ack_required;
  sequence = 0;
  payload = payload;
}

-- A frame whose payload is `payload` over zero bytes says just that.
message-sent :
    (u : Upgrade) (type n : ℕ) (payload : List ℕ)
    → n ≡ length payload
    → length payload ≤ max_payload
    → message (sent u type n (overwrite zero_frame.payload payload)).frame ≡ request type payload
unfolding zero_frame
message-sent u type n payload e fits =
    ap (request type)
      (take-overwrite zero_frame.payload payload n e (omega (arith, length-zero_frame)))

sent-IsFrame :
    (u : Upgrade) (type n : ℕ) (payload : List ℕ)
    → type < 256
    → n ≡ length payload
    → length payload ≤ max_payload
    → AreBytes payload
    → IsFrame (sent u type n (overwrite zero_frame.payload payload)).frame
sent-IsFrame u type n payload byte e fits bytes = record {
  array = length-overwrite zero_frame.payload payload ∙ length-zero_frame;
  fits = omega arith;
  says = rw (message-sent u type n payload e fits) (record {
    type_byte = byte;
    flags_byte = omega arith;
    sequence_word = omega arith;
    payload_fits = fits;
    payload_bytes = bytes;
  });
}

-- What a built request amounts to.
pub record Requests (b : Built) (type : ℕ) (payload : List ℕ) : Type 0 where
  pub succeeds : b.status ≡ ok
  pub says : message b.frame ≡ request type payload
  pub well_formed : IsFrame b.frame

sent-Requests :
    (u : Upgrade) (type n : ℕ) (stored payload : List ℕ)
    → type < 256
    → n ≡ length payload
    → length payload ≤ max_payload
    → AreBytes payload
    → stored ≡ overwrite zero_frame.payload payload
    → Requests (sent u type n stored) type payload
sent-Requests u type n stored payload byte e fits bytes st = rw st (record {
  succeeds = refl;
  says = message-sent u type n payload e fits;
  well_formed = sent-IsFrame u type n payload byte e fits bytes;
})

session-Requests :
    (u : Upgrade) (type : ℕ)
    → type < 256
    → Requests (build_session type u) type (put_le32 u.session_id)
unfolding build_session memcpy
session-Requests u type byte =
    sent-Requests u type 4 _ (put_le32 u.session_id) byte (sym (length-put_le32 u.session_id))
      (omega (arith, length-put_le32 u.session_id)) (put_le32-AreBytes u.session_id) refl

begin-Requests :
    (u : Upgrade)
    → length u.version ≡ 32
    → strlen u.version ≤ version_max
    → AreBytes u.version
    → let payload =
        put_le32 u.image_size
        ++ (put_le32 u.image_crc
            ++ (put_le16 u.chunk_size ++ take (strlen u.version + 1) u.version)) in
      Requests (build_begin u) msg_fw_begin payload
unfolding build_begin put_le16 put_le32 memcpy
begin-Requests u array short bytes =
    let stored = take (strlen u.version + 1) u.version in
    let size : length stored ≡ strlen u.version + 1 =
      omega (arith, length-take (strlen u.version + 1) u.version) in
    sent-Requests u msg_fw_begin _ _ _ (omega arith) (omega arith) (omega arith)
      (ground (arith, take-AreBytes (strlen u.version + 1) u.version bytes))
      (rw
        (
          memcpy_then zero_frame.payload 0 _ _ 4 refl,
          memcpy_then zero_frame.payload 0 _ _ 8 refl,
          memcpy_then zero_frame.payload 0 _ _ 10 refl,
        )
        refl)

transfer-Requests :
    (u : Upgrade)
    → length u.image_data ≡ u.image_size
    → u.offset < u.image_size
    → u.chunk_size ≤ max_payload - 8
    → AreBytes u.image_data
    → let payload =
        put_le32 u.session_id
        ++ (put_le32 u.offset ++ take (next_chunk u) (drop u.offset u.image_data)) in
      Requests (build_transfer u) msg_fw_data payload
      × ((build_transfer u).upgrade ≡ record u {
        last_chunk_end = u32 (u.offset + next_chunk u);
        chunks_sent = u32 (u.chunks_sent + 1);
      })
unfolding build_transfer put_le32 memcpy
transfer-Requests u image more small bytes =
    let n = next_chunk u in
    let chunk : (if ltb (u.image_size - u.offset) u.chunk_size
          then u.image_size - u.offset
          else u.chunk_size)
        ≡ n =
      ground arith in
    let unfinished : leb u.image_size u.offset ≡ false = ground arith in
    let piece = take n (drop u.offset u.image_data) in
    let size : length piece ≡ n =
      omega
        (arith, length-take n (drop u.offset u.image_data), length-drop u.offset u.image_data) in
    let piece_bytes : AreBytes piece =
      take-AreBytes n (drop u.offset u.image_data) (drop-AreBytes u.offset u.image_data bytes) in
    rw (unfinished, chunk)
      (
        sent-Requests _ msg_fw_data _ _ _ (omega arith) (omega arith) (omega arith)
            (ground (arith, piece_bytes))
            (rw
              (
                memcpy_then zero_frame.payload 0 _ _ 4 refl,
                memcpy_then zero_frame.payload 0 _ _ 8 refl,
              )
              refl),
        ap (λ (k : ℕ). record u { last_chunk_end = k; chunks_sent = u32 (u.chunks_sent + 1) })
            (omega arith),
      )

-- The upgrade after a request: FW_DATA records where its chunk ends and counts it.
abbrev pub after_request : UpgradeState → Upgrade → Upgrade
after_request transfer u = record u {
  last_chunk_end = u32 (u.offset + next_chunk u);
  chunks_sent = u32 (u.chunks_sent + 1);
}
after_request _ u = u

-- A call that was to build what is due, or nothing.
abbrev pub AsDue : UpgradeState → Option (ℕ × List ℕ) → Upgrade → Built → Type 0
AsDue d none u b = b ≡ refused u
AsDue d (some (type, payload)) u b = Requests b type payload × (b.upgrade ≡ after_request d u)

module _ (u : Upgrade) (v : IsUpgrade u) (image : AreBytes u.image_data)
    (text : AreBytes u.version) where
  build-AsDue : (d : UpgradeState) → u.state ≡ d → AsDue d (due d u) u (build d u)
  unfolding build
  build-AsDue idle h = refl
  build-AsDue validating h = refl
  build-AsDue enter_bootloader h = (
    sent-Requests u msg_enter_bootloader 0 _ [] (omega arith) refl (omega arith) tt
        (sym (overwrite-nil zero_frame.payload)),
    refl,
  )
  build-AsDue begin h =
      (begin-Requests u (v.version_array (rw h refl)) (v.version_fits (rw h refl)) text, refl)
  build-AsDue transfer h =
      transfer-Requests u (v.image (rw h refl)) (v.more_to_send h) (v.chunk_fits (rw h refl)) image
  build-AsDue recover h =
      let open_session : (u.session_id == 0) ≡ false =
        let s = v.session_open (rw h refl) in ground arith in
      rw open_session (session-Requests u msg_fw_status (omega arith), refl)
  build-AsDue end h = (session-Requests u msg_fw_end (omega arith), refl)
  build-AsDue verify h = (session-Requests u msg_fw_verify (omega arith), refl)
  build-AsDue activate h = (session-Requests u msg_fw_activate (omega arith), refl)
  build-AsDue reboot h = (
    sent-Requests u msg_reboot 1 _ (0 ∷ []) (omega arith) refl (omega arith) (omega arith)
        (unfold memcpy in refl),
    refl,
  )
  build-AsDue complete h = refl
  build-AsDue error h = refl

  -- In every state of a valid upgrade `devmgr_upgrade_build_request` builds exactly the request
  -- that is due: its type, its payload, the flag that asks for an ACK, in a well-formed frame;
  -- FW_BEGIN carries the size, the CRC, the chunk size and the version with its 0, in this order;
  -- FW_DATA carries the next chunk of the image and records its end, all else leaves the upgrade
  -- as it was; and where none is due the call returns DEVMGR_ERROR_STATE and changes nothing.
  pub build_request_lem : AsDue u.state (due u.state u) u (build_request u)
  unfolding build_request
  build_request_lem = build-AsDue u.state refl
