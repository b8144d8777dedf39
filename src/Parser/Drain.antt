-- ===== src/Parser/Drain.antt =====
-- The loops of src/protocol/parser.c: `parser_drain` and `devmgr_parser_feed`.
use linux_device_manager.Base.{
  ℕ, zero, suc, ◌+◌, ◌*◌, Bool, true, false, not, Option, none, some, List, [], ◌∷◌, ◌||◌, ltb,
  ◌==◌, ◌!=◌, if◌then◌else◌, length, drop, replicate, u64,
}
use linux_device_manager.Status.{Status, ok, invalid, overflow, is_ok}
use linux_device_manager.Span.{Span, null, at}
use linux_device_manager.Protocol.Constants.{
  magic, version, header_size, crc_size, max_payload, max_frame,
}
use linux_device_manager.Protocol.Le.{byte_at, get_le16}
use linux_device_manager.Protocol.Frame.{Frame, decode}
use linux_device_manager.Ring
use linux_device_manager.Ring.{Ring, ring_size, write, peek, discard}

-- `DEVMGR_PARSER_CAPACITY`
abbrev pub parser_capacity : ℕ
parser_capacity = max_frame * 2

-- `struct devmgr_parser_stats`; every field is a uint64_t.
pub record ParserStats : Type 0 where
  pub bytes_received : ℕ
  pub frames_decoded : ℕ
  pub crc_errors : ℕ
  pub length_errors : ℕ
  pub discarded_bytes : ℕ
  pub overflow_bytes : ℕ

-- `struct devmgr_parser`; `storage` is the array of the ring `input`.
pub record Parser : Type 0 where
  pub input : Ring
  pub stats : ParserStats

abbrev pub no_stats : ParserStats
no_stats = record {
  bytes_received = 0;
  frames_decoded = 0;
  crc_errors = 0;
  length_errors = 0;
  discarded_bytes = 0;
  overflow_bytes = 0;
}

-- The ring of zero bytes that `memset` leaves.
abbrev zero_ring : Ring
zero_ring = record { storage = []; capacity = 0; read_pos = 0; size = 0 }

-- `devmgr_parser_init`
unfoldable pub parser_init : Status × Parser
parser_init =
    let (status, ring) = Ring.init zero_ring (some (replicate parser_capacity 0)) parser_capacity in
    (status, record { input = ring; stats = no_stats })

-- `devmgr_parser_reset`
unfoldable parser_reset : Parser → Parser
parser_reset p = record { input = Ring.reset p.input; stats = no_stats }

-- `devmgr_parser_get_stats`
abbrev parser_get_stats : Parser → ParserStats
parser_get_stats p = p.stats

-- The counters after a byte that begins no frame, a length beyond the limit, a wrong CRC, a frame.
abbrev pub skipped : ParserStats → ParserStats
skipped st = record st { discarded_bytes = u64 (st.discarded_bytes + 1) }

abbrev pub too_long : ParserStats → ParserStats
too_long st = skipped (record st { length_errors = u64 (st.length_errors + 1) })

abbrev pub bad_crc : ParserStats → ParserStats
bad_crc st = skipped (record st { crc_errors = u64 (st.crc_errors + 1) })

abbrev pub decoded : ParserStats → ParserStats
decoded st = record st { frames_decoded = u64 (st.frames_decoded + 1) }

abbrev pub is_crc : Status → Bool
is_crc Status.crc = true
is_crc _ = false

-- What the loop of `parser_drain` works on: the parser, its local `frame`, the context of the
-- callback and `*frames_emitted`.
pub record Loop (C : Type 0) : Type 0 where
  pub parser : Parser
  pub frame : Frame
  pub context : C
  pub emitted : ℕ  -- size_t

-- A round of the loop ends it, or another follows.
pub data Turn (C : Type 0) : Type 0 where
  finished : Status → Loop C → Turn C
  continues : Loop C → Turn C

-- The parser after `n` bytes are discarded, with its new counters.
abbrev pub dropped : Parser → ℕ → ParserStats → Parser
dropped p n st = record { input = (discard p.input n).1; stats = st }

abbrev pub skip : {C : Type 0} → Loop C → ParserStats → Turn C
skip l st = continues (record l { parser = dropped l.parser 1 st })

module _ {C : Type 0} where
  -- The ring takes what it has room for.
  abbrev pub received : Loop C → List ℕ → ℕ × Loop C
  received l xs =
      let (written, ring) = write l.parser.input (at xs) in
      let st = l.parser.stats in
      (
        written,
        record l {
          parser = record {
            input = ring;
            stats = record st { bytes_received = u64 (st.bytes_received + written) };
          };
        },
      )

  abbrev pub overflowed : Loop C → ℕ → Loop C
  overflowed l n =
      let st = l.parser.stats in
      record l {
        parser = record l.parser {
          stats = record st { overflow_bytes = u64 (st.overflow_bytes + n) };
        };
      }

-- The callback, with its context.
module _ {C : Type 0} (callback : Frame → C → Status × C) where
  -- The end of a round, with a frame of `n` bytes.
  abbrev pub emit : Loop C → ℕ → Frame → Turn C
  emit l n frame =
      let (result, context) = callback frame l.context in
      let l' : Loop C = record {
        parser = dropped l.parser n (decoded l.parser.stats);
        frame = frame;
        context = context;
        emitted = u64 (l.emitted + 1);
      } in
      if is_ok result then continues l' else finished result l'

  -- One round of the loop of `parser_drain`.
  unfoldable pub turn : Loop C → Turn C
  turn l =
      let ring = l.parser.input in
      let st = l.parser.stats in
      let start = (peek ring 0 2).1 in
      let header = (peek ring 0 header_size).1 in
      let payload_length = get_le16 (drop 10 header) in
      let frame_length = header_size + payload_length + crc_size in
      let encoded = (peek ring 0 frame_length).1 in
      let (result, frame) = decode encoded l.frame in
      if ltb (ring_size ring) 2
      then finished ok l
      else if get_le16 start != magic
      then skip l (skipped st)
      else if ltb (ring_size ring) header_size
      then finished ok l
      else if byte_at header 2 != version || byte_at header 5 != 0
      then skip l (skipped st)
      else if ltb max_payload payload_length
      then skip l (too_long st)
      else if ltb (ring_size ring) frame_length
      then finished ok l
      else if is_crc result
      then skip (record l { frame = frame }) (bad_crc st)
      else if not (is_ok result)
      then skip (record l { frame = frame }) (skipped st)
      else emit l frame_length frame

  -- The loop of `parser_drain`, with `none` where the fuel ends.
  unfoldable pub drain : ℕ → Loop C → Option (Status × Loop C)
  drain zero l = none
  drain (suc fuel) l = elim (turn l) [
    | finished status l' ↦ some (status, l')
    | continues l' ↦ drain fuel l'
  ]

  -- `parser_drain`; a round that is not the last one takes a byte or more from the ring.
  abbrev parser_drain : Loop C → Option (Status × Loop C)
  parser_drain l = drain (ring_size l.parser.input + 1) l

  -- The loop of `devmgr_parser_feed` on the bytes that are left, and the last call of
  -- `parser_drain`.
  unfoldable pub feed_loop : ℕ → Loop C → List ℕ → Option (Status × Loop C)
  feed_loop zero l xs = none
  feed_loop (suc fuel) l [] = parser_drain l
  feed_loop (suc fuel) l (x ∷ xs) =
      let (written, l1) = received l (x ∷ xs) in
      elim (parser_drain l1) [
        | none ↦ none
        | some (result, l2) ↦ elim (is_ok result) [
          | false ↦ some (result, l2)
          | true ↦ elim (written == 0) [
            | true ↦ some (overflow, overflowed l2 (length (drop written (x ∷ xs))))
            | false ↦ feed_loop fuel l2 (drop written (x ∷ xs))
          ]
        ]
      ]

  -- `devmgr_parser_feed` on a parser and a context, with what its local `frame` happens to hold
  -- and `*frames_emitted`; a round of its loop that does not end it takes a byte or more.
  unfoldable pub feed : Loop C → Span → Option (Status × Loop C)
  feed l (null (suc n)) = some (invalid, l)
  feed l (null zero) = feed_loop 1 (record l { emitted = 0 }) []
  feed l (at xs) = feed_loop (length xs + 1) (record l { emitted = 0 }) xs
