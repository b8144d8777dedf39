-- ===== src/Tests/Frames.antt =====
-- src/common/crc32.c and src/protocol/frame.c on a ping.
use linux_device_manager.Base.{
  ℕ, ◌≡◌, ◌≢◌, refl, arith, List, [], ◌∷◌, ◌++◌, take, replicate, length-replicate, false,
}
use linux_device_manager.Status.{ok, is_ok}
use linux_device_manager.Span.{at}
use linux_device_manager.Crc
use linux_device_manager.Crc.{crc32, update}
use linux_device_manager.Crc.Detect.{crc32_detects_byte}
use linux_device_manager.Protocol.Frame.{Frame, encode, decode}
use linux_device_manager.Protocol.Frame.Wire.{
  Message, message, IsMessage, IsFrame, wire, body, header, zero_frame, length-zero_frame,
}
use linux_device_manager.Protocol.Frame.RoundTrip.{encode-decode}
use linux_device_manager.Protocol.Frame.Canonical.{decode_canonical}
use linux_device_manager.Protocol.Frame.Corruption.{decode_refuses_changed_byte}
use linux_device_manager.Protocol.Le.{put_le16, put_le32, get_le16, get_le32}

abbrev pub ping : Message
ping = record { type = 1; flags = 2; sequence = 7; payload = 10 ∷ [] }

abbrev pub ping_frame : Frame
ping_frame = record {
  type = 1;
  flags = 2;
  sequence = 7;
  payload_length = 1;
  payload = 10 ∷ replicate 4095 0;
}

pub ping-IsMessage : IsMessage ping
ping-IsMessage = ground arith

pub ping_frame-IsFrame : IsFrame ping_frame
ping_frame-IsFrame = ground (arith, length-replicate {A = ℕ} 4095 0)

abbrev pub ping_start : List ℕ
ping_start = 68 ∷ 77 ∷ 1 ∷ 1 ∷ 2 ∷ 0 ∷ 7 ∷ 0 ∷ 0 ∷ 0 ∷ 1 ∷ 0 ∷ []

abbrev pub ping_crc : List ℕ
ping_crc = 126 ∷ 42 ∷ 134 ∷ 248 ∷ []

wire-ping : wire ping ≡ ping_start ++ (10 ∷ ping_crc)
unfolding wire body header put_le16 put_le32 crc32 update Crc.update_bytes Crc.finish
wire-ping = refl

decode_refuses_changed_byte_example :
    is_ok (decode (ping_start ++ (11 ∷ ping_crc)) zero_frame).0 ≡ false
decode_refuses_changed_byte_example =
    decode_refuses_changed_byte ping zero_frame ping_start ping_crc 10 11 ping-IsMessage
      length-zero_frame wire-ping (omega arith) (omega arith)

encode-decode_example :
    let e = encode ping_frame (replicate 20 0) 0 in
    (e.status ≡ ok)
    × ((decode (take e.encoded_length e.output) zero_frame).0 ≡ ok)
    × (message (decode (take e.encoded_length e.output) zero_frame).1 ≡ message ping_frame)
encode-decode_example =
    encode-decode ping_frame zero_frame (replicate 20 0) 0 ping_frame-IsFrame length-zero_frame
      (omega (arith, length-replicate {A = ℕ} 20 0))

decode-ping :
    decode (ping_start ++ (10 ∷ ping_crc)) zero_frame
    ≡ (ok, (decode (ping_start ++ (10 ∷ ping_crc)) zero_frame).1)
unfolding decode get_le16 get_le32 crc32 update Crc.update_bytes Crc.finish
decode-ping = refl

decode_canonical_example :
    let f = (decode (ping_start ++ (10 ∷ ping_crc)) zero_frame).1 in
    IsFrame f × (ping_start ++ (10 ∷ ping_crc) ≡ wire (message f))
decode_canonical_example =
    decode_canonical (ping_start ++ (10 ∷ ping_crc)) zero_frame
      (decode (ping_start ++ (10 ∷ ping_crc)) zero_frame).1 (omega arith) length-zero_frame
      decode-ping

crc32_detects_byte_example : crc32 (at (1 ∷ 2 ∷ [])) ≢ crc32 (at (1 ∷ 3 ∷ []))
crc32_detects_byte_example =
    crc32_detects_byte (1 ∷ []) [] 2 3 (omega arith) tt (omega arith) (omega arith) (omega arith)
