-- ===== src/Parser/Stream.antt =====
-- The parser on the bytes that its ring holds, one round of its loop at a time.
use linux_device_manager.Base.{
  ℕ, ◌+◌, ◌^◌, ◌<◌, ◌≡◌, ap, ap₂, ◌∙◌, arith, false, not, Option, none, some, List, ◌||◌, ltb, ◌!=◌,
  if◌then◌else◌, length, take, drop, length-overwrite,
}
use linux_device_manager.Status.{Status, ok, is_ok}
use linux_device_manager.Protocol.Constants.{magic, version, header_size, crc_size, max_payload}
use linux_device_manager.Protocol.Le.{byte_at, get_le16}
use linux_device_manager.Protocol.Frame.{Frame, decode}
use linux_device_manager.Protocol.Frame.Wire.{
  Message, message, zero_frame, length-zero_frame, received_payload,
}
use linux_device_manager.Ring.Contents.{IsRing, contents, length-contents}
use linux_device_manager.Ring.Peek.{peek_lem}
use linux_device_manager.Ring.Discard.{discard_lem}
use linux_device_manager.Parser.Drain.{
  parser_capacity, ParserStats, skipped, too_long, bad_crc, decoded, is_crc, Loop, Turn, finished,
  continues, turn, skip, emit,
}

-- The bytes that wait in the ring, the counters and the callback's context.
pub record Stream (C : Type 0) : Type 0 where
  pub bytes : List ℕ
  pub stats : ParserStats
  pub context : C

abbrev pub stream : {C : Type 0} → Loop C → Stream C
stream l = record { bytes = contents l.parser.input; stats = l.parser.stats; context = l.context }

pub record IsLoop {C : Type 0} (l : Loop C) : Type 0 where
  pub ring : IsRing l.parser.input
  pub capacity : l.parser.input.capacity ≡ parser_capacity
  pub array : length l.frame.payload ≡ max_payload
  pub counted : l.parser.stats.bytes_received < 2 ^ 64

abbrev without : {C : Type 0} → ℕ → Stream C → ParserStats → C → Stream C
without n s st c = record { bytes = drop n s.bytes; stats = st; context = c }

-- The status of a decoding does not depend on what the frame held, nor does the message.
decode_status : (bytes : List ℕ) (f g : Frame) → (decode bytes f).0 ≡ (decode bytes g).0
unfolding decode
decode_status bytes f g = ground arith

pub decode_array :
    (bytes : List ℕ) (f : Frame) → length (decode bytes f).1.payload ≡ length f.payload
unfolding decode
decode_array bytes f =
    ground (arith, length-overwrite f.payload (take (get_le16 (drop 10 bytes)) (drop 12 bytes)))

same_message :
    (bytes : List ℕ) (f g : Frame)
    → length f.payload ≡ max_payload
    → length g.payload ≡ max_payload
    → (decode bytes g).0 ≡ ok
    → message (decode bytes f).1 ≡ message (decode bytes g).1
unfolding decode
same_message bytes f g af ag e =
    let n = get_le16 (drop 10 bytes) in
    ground (arith, received_payload bytes f.payload n af, received_payload bytes g.payload n ag)

succeeded : (s : Status) → not (is_ok s) ≡ false → s ≡ ok
succeeded s h = ground arith

-- A callback that always succeeds, on the message of the frame.
module _ {C : Type 0} (on : Message → C → C) where
  -- A round, with `none` where the loop ends.
  unfoldable pub move : Stream C → Option (Stream C)
  move s =
      let b = s.bytes in
      let header = take header_size b in
      let payload_length = get_le16 (drop 10 header) in
      let frame_length = header_size + payload_length + crc_size in
      let (result, frame) = decode (take frame_length b) zero_frame in
      if ltb (length b) 2
      then none
      else if get_le16 (take 2 b) != magic
      then some (without 1 s (skipped s.stats) s.context)
      else if ltb (length b) header_size
      then none
      else if byte_at header 2 != version || byte_at header 5 != 0
      then some (without 1 s (skipped s.stats) s.context)
      else if ltb max_payload payload_length
      then some (without 1 s (too_long s.stats) s.context)
      else if ltb (length b) frame_length
      then none
      else if is_crc result
      then some (without 1 s (bad_crc s.stats) s.context)
      else if not (is_ok result)
      then some (without 1 s (skipped s.stats) s.context)
      else some (without frame_length s (decoded s.stats) (on (message frame) s.context))

  abbrev pub callback : Frame → C → Status × C
  callback f c = (ok, on (message f) c)

  -- A round of the loop goes as the move says.
  pub data Agrees (l : Loop C) : Turn C → Option (Stream C) → Type 0 where
    ends : Agrees l (finished ok l) none
    goes_on :
        (l' : Loop C) (s : Stream C) → stream l' ≡ s → IsLoop l' → Agrees l (continues l') (some s)

  skip-Agrees :
      (l : Loop C) (f : Frame) (st : ParserStats)
      → IsLoop l
      → length f.payload ≡ max_payload
      → st.bytes_received < 2 ^ 64
      → Agrees l (skip (record l { frame = f }) st) (some (without 1 (stream l) st l.context))
  skip-Agrees l f st v array counted =
      let (count, bytes, ring, capacity) = discard_lem l.parser.input 1 v.ring in
      goes_on _ _ (ap (λ (b : List ℕ). record { bytes = b; stats = st; context = l.context }) bytes)
        (record { ring = ring; capacity = capacity ∙ v.capacity; array = array; counted = counted })

  emit-Agrees :
      (l : Loop C) (n : ℕ) (f : Frame) (m : Message)
      → IsLoop l
      → length f.payload ≡ max_payload
      → message f ≡ m
      → Agrees l
          (emit callback l n f)
          (some (without n (stream l) (decoded l.parser.stats) (on m l.context)))
  emit-Agrees l n f m v array e =
      let (count, bytes, ring, capacity) = discard_lem l.parser.input n v.ring in
      goes_on _ _
        (ap₂
          (λ (b : List ℕ) (m' : Message). record {
            bytes = b;
            stats = decoded l.parser.stats;
            context = on m' l.context;
          })
          bytes e)
        (record {
          ring = ring;
          capacity = capacity ∙ v.capacity;
          array = array;
          counted = v.counted;
        })

  pub turn_lem : (l : Loop C) → IsLoop l → Agrees l (turn callback l) (move (stream l))
  unfolding turn move
  turn_lem l v =
      let ring = l.parser.input in
      let st = l.parser.stats in
      let b = contents ring in
      let n = 12 + get_le16 (drop 10 (take 12 b)) + 4 in
      let encoded = take n b in
      let f = (decode encoded l.frame).1 in
      let array = decode_array encoded l.frame ∙ v.array in
      let e : Agrees l (finished ok l) none = ends in
      let emits : (decode encoded zero_frame).0 ≡ ok
          → Agrees l (emit callback l n f) (
              some (
                without n (stream l) (decoded st)
                  (on (message (decode encoded zero_frame).1) l.context))) =
        λ h.
          emit-Agrees l n f _ v array
            (same_message encoded l.frame zero_frame v.array length-zero_frame h) in
      rw
        (
          peek_lem ring 0 2 v.ring,
          peek_lem ring 0 12 v.ring,
          peek_lem ring 0 n v.ring,
          length-contents ring v.ring,
          decode_status encoded l.frame zero_frame,
        )
        (ground (
          arith,
          e,
          emits,
          skip-Agrees l l.frame (skipped st) v v.array v.counted,
          skip-Agrees l l.frame (too_long st) v v.array v.counted,
          skip-Agrees l f (skipped st) v array v.counted,
          skip-Agrees l f (bad_crc st) v array v.counted,
        ))
