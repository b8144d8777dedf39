-- ===== src/Tests/Stm32s.antt =====
-- firmware/stm32f103 on a ping and on a flash of one image.
use linux_device_manager.Base.{
  ℕ, ◌+◌, ◌≡◌, ◌⊎◌, ◌↔◌, refl, arith, List, [], ◌∷◌, ◌++◌, replicate, length-replicate, pos, some,
}
use linux_device_manager.Status.{ok}
use linux_device_manager.Span.{at}
use linux_device_manager.Protocol.Frame
use linux_device_manager.Protocol.Frame.Wire.{message, zero_frame, length-zero_frame}
use linux_device_manager.Stm32.Codec.{View, decode, encode}
use linux_device_manager.Stm32.Codec.Agrees.{view_message, decode_agrees, encode_agrees}
use linux_device_manager.Stm32.Update.State.{FlashOps, Update, init, UpdateState}
use linux_device_manager.Stm32.Update.Invariant.{IsUpdate, serve, serve-IsUpdate}
use linux_device_manager.Stm32.Update.Activation.{Keeps, SomeVerifies, serve_activates_verified}
use linux_device_manager.Tests.Frames.{ping_start, ping_crc, ping_frame, ping_frame-IsFrame}

abbrev no_view : View
no_view = record { type = 0; flags = 0; sequence = 0; payload = []; payload_length = 0 }

decode_agrees_example :
    (((decode (ping_start ++ (10 ∷ ping_crc)) no_view).0 ≡ pos 0)
      ↔ ((Frame.decode (ping_start ++ (10 ∷ ping_crc)) zero_frame).0 ≡ ok))
    × ((decode (ping_start ++ (10 ∷ ping_crc)) no_view).0 ≡ pos 0
        → view_message (decode (ping_start ++ (10 ∷ ping_crc)) no_view).1
          ≡ message (Frame.decode (ping_start ++ (10 ∷ ping_crc)) zero_frame).1)
decode_agrees_example =
    decode_agrees (ping_start ++ (10 ∷ ping_crc)) no_view zero_frame length-zero_frame

encode_agrees_example :
    let e = encode 1 2 7 (at (10 ∷ [])) (replicate 20 0) 0 in
    (e.result ≡ pos 0)
    × (e.output ≡ (Frame.encode ping_frame (replicate 20 0) 0).output)
    × (e.encoded_length ≡ (Frame.encode ping_frame (replicate 20 0) 0).encoded_length)
encode_agrees_example =
    encode_agrees ping_frame (replicate 20 0) 0 0 ping_frame-IsFrame
      (omega (arith, length-replicate {A = ℕ} 20 0))

-- A flash that remembers whether it was activated, and whose image has the CRC 5.
abbrev flash : FlashOps ℕ
flash = record {
  erase = λ f size. (pos 0, f);
  write = λ f offset xs. (pos 0, f);
  read = λ f offset n. (pos 0, [], f);
  crc32 = λ f size. (5, f);
  activate = λ f size crc version. (pos 0, f + 1);
  reboot = λ f. f;
}

abbrev fresh : Update ℕ
fresh = record {
  flash = flash;
  flash_context = 0;
  state = UpdateState.idle;
  session_id = 1;
  image_size = 0;
  image_crc = 0;
  next_offset = 0;
  chunk_size = 0;
  pending_version = replicate 32 0;
}

-- FW_BEGIN of an image of two bytes, then its FW_DATA.
abbrev requests : List View
requests =
    record no_view {
      type = 0x11;
      payload = 2 ∷ 0 ∷ 0 ∷ 0 ∷ 5 ∷ 0 ∷ 0 ∷ 0 ∷ 2 ∷ 0 ∷ 65 ∷ 0 ∷ [];
      payload_length = 12;
    }
    ∷ record no_view {
      type = 0x12;
      payload = 2 ∷ 0 ∷ 0 ∷ 0 ∷ 0 ∷ 0 ∷ 0 ∷ 0 ∷ 7 ∷ 8 ∷ [];
      payload_length = 10;
    }
    ∷ []

serve-IsUpdate_example : IsUpdate (serve (init fresh (some flash) 0).1 requests (replicate 24 0) 0)
serve-IsUpdate_example = serve-IsUpdate fresh flash 0 requests (replicate 24 0) 0 (ground arith)

-- It was never activated.
flash-Keeps : Keeps flash (λ f. f ≡ 0)
flash-Keeps = ground arith

serve_activates_verified_example :
    ((serve fresh requests (replicate 24 0) 0).flash_context ≡ 0)
    ⊎ SomeVerifies fresh requests (replicate 24 0) 0
serve_activates_verified_example =
    serve_activates_verified requests fresh (replicate 24 0) 0 (λ f. f ≡ 0) flash-Keeps refl refl
