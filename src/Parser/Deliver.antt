-- ===== src/Parser/Deliver.antt =====
-- `devmgr_parser_feed` on a stream of frames: each is delivered, in order.
use linux_device_manager.Base.{
  ℕ, ◌+◌, ◌^◌, ◌<◌, ◌≡◌, refl, ap, arith, ◌∙◌, some, List, [], ◌∷◌, ◌++◌, All, length, take, drop,
  length-append, take-append_le, take-append, drop-append, take-overwrite, u64,
}
use linux_device_manager.Status.{ok}
use linux_device_manager.Span.{at}
use linux_device_manager.Protocol.Le.{byte_at, get_le16, put_le16, put_le32, get_le16-put_le16}
use linux_device_manager.Protocol.Frame.Wire.{
  Message, message, IsMessage, wire, body, header, zero_frame, length-zero_frame,
}
use linux_device_manager.Protocol.Frame.RoundTrip.{decode-wire, length-wire, received}
use linux_device_manager.Parser.Drain.{Loop, decoded, feed, ParserStats}
use linux_device_manager.Parser.Stream.{Stream, stream, IsLoop, move, callback}
use linux_device_manager.Parser.Scan.{arrived, Scans, Scans-unique, waits, goes}
use linux_device_manager.Parser.Feed.{feed_lem}

-- The bytes of some frames, one after the other.
abbrev pub wires : List Message → List ℕ
wires [] = []
wires (m ∷ ms) = wire m ++ wires ms

module _ (m : Message) (v : IsMessage m) where
  start_magic : get_le16 (take 2 (wire m)) ≡ 0x4d44
  unfolding get_le16 wire body header put_le16
  start_magic = refl

  start_bytes : (byte_at (take 12 (wire m)) 2 ≡ 1) × (byte_at (take 12 (wire m)) 5 ≡ 0)
  unfolding wire body header put_le16 put_le32
  start_bytes = (refl, refl)

  start_length : get_le16 (drop 10 (take 12 (wire m))) ≡ length m.payload
  unfolding wire body header put_le16 put_le32
  start_length = get_le16-put_le16 (length m.payload) [] (omega (arith, v.payload_fits))

  message-received : message (received m zero_frame) ≡ m
  message-received =
      ap (λ (p : List ℕ). record m { payload = p })
        (take-overwrite zero_frame.payload m.payload (length m.payload) refl
          (omega (arith, length-zero_frame, v.payload_fits)))

module _ {C : Type 0} (on : Message → C → C) where
  move-wire :
      (m : Message) (rest : List ℕ) (st : ParserStats) (c : C)
      → IsMessage m
      → move on (record { bytes = wire m ++ rest; stats = st; context = c })
        ≡ some (record { bytes = rest; stats = decoded st; context = on m c })
  unfolding move
  move-wire m rest st c v =
      let size = length-wire m in
      rw
        (
          take-append_le (wire m) rest 2 (omega arith),
          take-append_le (wire m) rest 12 (omega arith),
          start_magic m v,
          (start_bytes m v).0,
          (start_bytes m v).1,
          start_length m v,
          take-append (wire m) rest (12 + length m.payload + 4) (omega arith),
          drop-append (wire m) rest (12 + length m.payload + 4) (omega arith),
          decode-wire m zero_frame v,
          message-received m v,
        )
        (ground (arith, length-append (wire m) rest, v.payload_fits))

  -- The callback's context after some messages, and the counters.
  pub deliver : List Message → C → C
  deliver [] c = c
  deliver (m ∷ ms) c = deliver ms (on m c)

  tally : List Message → ParserStats → ParserStats
  tally [] st = st
  tally (m ∷ ms) st = tally ms (decoded st)

  tally_lem :
      (ms : List Message) (st : ParserStats)
      → st.frames_decoded < 2 ^ 64
      → ((tally ms st).frames_decoded ≡ u64 (st.frames_decoded + length ms))
        × ((tally ms st).discarded_bytes ≡ st.discarded_bytes)
        × ((tally ms st).crc_errors ≡ st.crc_errors)
        × ((tally ms st).length_errors ≡ st.length_errors)
  unfolding tally
  tally_lem [] st h = (omega arith, refl, refl, refl)
  tally_lem (m ∷ ms) st h =
      let (frames, skipped', crcs, lengths) = tally_lem ms (decoded st) (omega arith) in
      (omega arith, skipped', crcs, lengths)

  wires-Scans :
      (ms : List Message) (st : ParserStats) (c : C)
      → All IsMessage ms
      → Scans on
          (record { bytes = wires ms; stats = st; context = c })
          (record { bytes = []; stats = tally ms st; context = deliver ms c })
  unfolding tally deliver move
  wires-Scans [] st c v = waits _ refl
  wires-Scans (m ∷ ms) st c v =
      goes _ (record { bytes = wires ms; stats = decoded st; context = on m c }) _
        (move-wire m (wires ms) st c v.0) (wires-Scans ms (decoded st) (on m c) v.1)

  -- With a callback that succeeds and looks at the message of a frame, `devmgr_parser_feed` of the
  -- wire bytes of any frames to a parser whose ring is empty returns DEVMGR_OK; it calls the
  -- callback on just these messages, in their order, counts as many, discards no byte, counts no
  -- error, and leaves nothing in the ring.
  pub feed_delivers :
      (l : Loop C) (ms : List Message)
      → IsLoop l
      → (stream l).bytes ≡ []
      → l.parser.stats.frames_decoded < 2 ^ 64
      → All IsMessage ms
      → (l' : Loop C) × (feed (callback on) l (at (wires ms)) ≡ some (ok, l'))
        × (l'.context ≡ deliver ms l.context)
        × ((stream l').bytes ≡ [])
        × (l'.parser.stats.frames_decoded ≡ u64 (l.parser.stats.frames_decoded + length ms))
        × (l'.parser.stats.discarded_bytes ≡ l.parser.stats.discarded_bytes)
        × (l'.parser.stats.crc_errors ≡ l.parser.stats.crc_errors)
        × (l'.parser.stats.length_errors ≡ l.parser.stats.length_errors)
  feed_delivers l ms v nothing h valid =
      let (l', e, rounds, v') = feed_lem on l (wires ms) v (rw nothing (omega arith)) in
      let start = arrived (stream l) (wires ms) in
      let counters = start.stats in
      let (frames, skipped', crcs, lengths) = tally_lem ms counters h in
      let from_start = rw nothing at rounds in
      let ends = Scans-unique on _ _ _ from_start (wires-Scans ms counters l.context valid) in
      (
        l',
        e,
        ap (λ (s : Stream C). s.context) ends,
        ap (λ (s : Stream C). s.bytes) ends,
        ap (λ (s : Stream C). s.stats.frames_decoded) ends ∙ frames,
        ap (λ (s : Stream C). s.stats.discarded_bytes) ends ∙ skipped',
        ap (λ (s : Stream C). s.stats.crc_errors) ends ∙ crcs,
        ap (λ (s : Stream C). s.stats.length_errors) ends ∙ lengths,
      )
