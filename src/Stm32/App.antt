-- ===== src/Stm32/App.antt =====
-- firmware/stm32f103/application/device_app.c: the application's handler of a request.
use linux_device_manager.Base.{ℕ, List, [], ◌∷◌, ◌==◌, if◌then◌else◌, take}
use linux_device_manager.Span.{at}
use linux_device_manager.Stm32.Codec.{
  View, Encoded, encode, put_le16, frame_response, stm32_msg_ping, stm32_msg_get_info,
  stm32_msg_nack,
}

-- `info`
abbrev info : List ℕ
info =
    0x30 ∷ 0x4d ∷ 0x49 ∷ 0x53 ∷ 83 ∷ 84 ∷ 77 ∷ 51 ∷ 50 ∷ 45 ∷ 82 ∷ 69 ∷ 70 ∷ 0 ∷ 72 ∷ 87 ∷ 45 ∷ 49
    ∷ 46 ∷ 48 ∷ 0 ∷ 49 ∷ 46 ∷ 48 ∷ 46 ∷ 48 ∷ 0 ∷ 66 ∷ 76 ∷ 45 ∷ 49 ∷ 46 ∷ 48 ∷ 46 ∷ 48 ∷ 0 ∷ 82 ∷ 69
    ∷ 70 ∷ 48 ∷ 48 ∷ 48 ∷ 48 ∷ 48 ∷ 48 ∷ 48 ∷ 49 ∷ 0 ∷ []

-- `stm32_application_handle`; `output` is the response buffer, `n` what `*response_length` holds,
-- and the request's payload is a buffer that is not null.
abbrev application_handle : View → List ℕ → ℕ → Encoded
application_handle request output n =
    if request.type == stm32_msg_ping
    then encode request.type frame_response request.sequence
        (at (take request.payload_length request.payload)) output n
    else if request.type == stm32_msg_get_info
    then encode request.type frame_response request.sequence (at info) output n
    else encode stm32_msg_nack frame_response request.sequence (at (put_le16 1)) output n
