-- ===== src/Protocol/Frame/Wire.antt =====
-- What a frame says, and the bytes that say it.
use linux_device_manager.Base.{
  arith, overwrite, take-overwrite, drop, length-take, length-drop, ◌+◌, ℕ, ◌^◌, ◌≤◌, ◌<◌, ◌≡◌,
  List, ◌∷◌, ◌++◌, length, take, replicate, length-replicate,
}
use linux_device_manager.Span.{at, AreBytes}
use linux_device_manager.Crc.{crc32}
use linux_device_manager.Protocol.Constants.{magic, version, max_payload}
use linux_device_manager.Protocol.Le.{put_le16, put_le32}
use linux_device_manager.Protocol.Frame.{Frame}

-- A frame without the unused part of its payload array.
pub record Message : Type 0 where
  pub type : ℕ
  pub flags : ℕ
  pub sequence : ℕ
  pub payload : List ℕ

abbrev pub message : Frame → Message
message f = record {
  type = f.type;
  flags = f.flags;
  sequence = f.sequence;
  payload = take f.payload_length f.payload;
}

-- The ranges that the C types give, and the limit on the payload.
pub record IsMessage (m : Message) : Type 0 where
  pub type_byte : m.type < 256
  pub flags_byte : m.flags < 256
  pub sequence_word : m.sequence < 2 ^ 32
  pub payload_fits : length m.payload ≤ max_payload
  pub payload_bytes : AreBytes m.payload

-- A frame whose array has its 4096 bytes and whose length field is in range.
pub record IsFrame (f : Frame) : Type 0 where
  pub array : length f.payload ≡ max_payload
  pub fits : f.payload_length ≤ max_payload
  pub says : IsMessage (message f)

-- The frame's bytes before the CRC, and all of them, as docs/protocol.md lays them out.
unfoldable pub header : Message → List ℕ
header m =
    put_le16 magic
    ++ (version ∷ m.type ∷ m.flags ∷ 0 ∷ (put_le32 m.sequence ++ put_le16 (length m.payload)))

unfoldable pub body : Message → List ℕ
body m = header m ++ m.payload

unfoldable pub wire : Message → List ℕ
wire m = body m ++ put_le32 (crc32 (at (body m)))

-- The frame of zero bytes that `memset` leaves.
unfoldable pub zero_frame : Frame
zero_frame = record {
  type = 0;
  flags = 0;
  sequence = 0;
  payload_length = 0;
  payload = replicate max_payload 0;
}

pub length-zero_frame : length zero_frame.payload ≡ max_payload
unfolding zero_frame
length-zero_frame = length-replicate {A = ℕ} max_payload 0

-- The used part of a payload array that is filled from the bytes of a frame.
pub received_payload :
    (bytes payload : List ℕ) (n : ℕ)
    → length payload ≡ max_payload
    → n ≤ max_payload
    → length bytes ≡ 12 + n + 4
    → take n (overwrite payload (take n (drop 12 bytes))) ≡ take n (drop 12 bytes)
received_payload bytes payload n array fits e =
    take-overwrite payload (take n (drop 12 bytes)) n (omega (arith, sizes)) (omega (arith, sizes))
  where
    sizes : length (take n (drop 12 bytes)) ≡ n
    sizes = omega (arith, length-take n (drop 12 bytes), length-drop 12 bytes)
