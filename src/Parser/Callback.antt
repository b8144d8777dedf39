-- ===== src/Parser/Callback.antt =====
-- `devmgr_parser_feed` with a callback that may fail: it returns, and keeps what the callback keeps.
use linux_device_manager.Base.{
  ℕ, zero, suc, ◌+◌, ◌<◌, ◌≡◌, refl, ◌∙◌, arith, some, List, [], ◌∷◌, length, drop, length-drop,
  ◌==◌, ◌⊎◌, inl, inr, Bool-cases, if-both, if-cases, ltb, u64, not, ◌||◌, ◌!=◌,
}
use linux_device_manager.Status.{Status, ok, overflow, is_ok}
use linux_device_manager.Span.{at}
use linux_device_manager.Protocol.Constants.{max_payload, magic, version}
use linux_device_manager.Protocol.Le.{get_le16, byte_at}
use linux_device_manager.Protocol.Frame.{Frame, decode}
use linux_device_manager.Ring.{Ring, ring_size, peek, discard}
use linux_device_manager.Ring.Contents.{IsRing, contents, length-contents}
use linux_device_manager.Ring.Discard.{discard_lem}
use linux_device_manager.Parser.Drain.{
  Loop, Turn, finished, continues, turn, skip, emit, drain, feed_loop, feed, received, overflowed,
  is_crc, dropped, ParserStats, skipped, too_long, bad_crc, decoded,
}
use linux_device_manager.Parser.Stream.{IsLoop, decode_array}
use linux_device_manager.Parser.Feed.{received_lem}

discard_size : (r : Ring) (n : ℕ) → IsRing r → 0 < n → 0 < r.size → (discard r n).1.size < r.size
discard_size r n v h k =
    let (count, bytes, ring, capacity) = discard_lem r n v in
    let after = length-contents (discard r n).1 ring in
    let before = length-contents r v in
    let fewer : length (contents (discard r n).1) ≡ length (drop n (contents r)) = rw bytes refl in
    omega (arith, length-drop n (contents r))

dropped-IsLoop :
    {C : Type 0} (l : Loop C) (n : ℕ) (st : ParserStats) (f : Frame) (c : C) (k : ℕ)
    → IsLoop l
    → length f.payload ≡ max_payload
    → st.bytes_received ≡ l.parser.stats.bytes_received
    → IsLoop {C = C}
        (record { parser = dropped l.parser n st; frame = f; context = c; emitted = k })
dropped-IsLoop l n st f c k v array same =
    let (count, bytes, ring, capacity) = discard_lem l.parser.input n v.ring in
    record {
      ring = ring;
      capacity = capacity ∙ v.capacity;
      array = array;
      counted = omega (arith, same, v.counted);
    }

-- What the callback keeps of its context.
module _ {C : Type 0} (callback : Frame → C → Status × C) (Keeps : C → Type 0)
    (keeps : (f : Frame) (c : C) → Keeps c → Keeps (callback f c).1) where
  abbrev pub IsSound : Loop C → Type 0
  IsSound l = IsLoop l × Keeps l.context

  -- A round ends the loop, or leaves fewer bytes.
  data Goes (l : Loop C) : Turn C → Type 0 where
    stops : (s : Status) (l' : Loop C) → IsSound l' → Goes l (finished s l')
    shrinks :
        (l' : Loop C)
        → IsSound l'
        → l'.parser.input.size < l.parser.input.size
        → Goes l (continues l')

  skip-Goes :
      (l : Loop C) (f : Frame) (st : ParserStats)
      → IsSound l
      → length f.payload ≡ max_payload
      → st.bytes_received ≡ l.parser.stats.bytes_received
      → 0 < l.parser.input.size
      → Goes l (skip (record l { frame = f }) st)
  skip-Goes l f st (v, k) array same h =
      shrinks _ (dropped-IsLoop l 1 st f l.context l.emitted v array same, k)
        (discard_size l.parser.input 1 v.ring (omega arith) h)

  emit-Goes :
      (l : Loop C) (n : ℕ) (f : Frame)
      → IsSound l
      → length f.payload ≡ max_payload
      → 0 < n
      → 0 < l.parser.input.size
      → Goes l (emit callback l n f)
  emit-Goes l n f (v, k) array some_bytes h =
      let c = (callback f l.context).1 in
      let v' = dropped-IsLoop l n (decoded l.parser.stats) f c (u64 (l.emitted + 1)) v array refl in
      let k' = keeps f l.context k in
      elim (Bool-cases (is_ok (callback f l.context).0)) [
        | inl good ↦
            rw good (shrinks _ (v', k') (discard_size l.parser.input n v.ring some_bytes h))
        | inr bad ↦ rw bad (stops _ _ (v', k'))
      ]

  turn-Goes : (l : Loop C) → IsSound l → Goes l (turn callback l)
  unfolding turn
  turn-Goes l (v, k) =
      let ring = l.parser.input in
      let st = l.parser.stats in
      let header = (peek ring 0 12).1 in
      let n = 12 + get_le16 (drop 10 header) + 4 in
      let encoded = (peek ring 0 n).1 in
      let f = (decode encoded l.frame).1 in
      let array = decode_array encoded l.frame ∙ v.array in
      let waits = stops ok l (v, k) in
      let G = Goes l in
      let shifts =
        λ (x : ParserStats) (h : 0 < ring.size) (same : x.bytes_received ≡ st.bytes_received).
          skip-Goes l l.frame x (v, k) v.array same h in
      let decodes =
        λ (x : ParserStats) (h : 0 < ring.size) (same : x.bytes_received ≡ st.bytes_received).
          skip-Goes l f x (v, k) array same h in
      if-cases G (ltb ring.size 2) _ _ (λ few. waits)
        λ enough.
          let h : 0 < ring.size = ground (arith, enough) in
          if-both G (get_le16 (peek ring 0 2).1 != magic) _ _ (shifts (skipped st) h refl) (
            if-both G (ltb ring.size 12) _ _ waits (
              if-both G (byte_at header 2 != version || byte_at header 5 != 0) _ _
                (shifts (skipped st) h refl)
                (if-both G (ltb max_payload (get_le16 (drop 10 header))) _ _
                  (shifts (too_long st) h refl)
                  (if-both G (ltb ring.size n) _ _ waits (
                    if-both G (is_crc (decode encoded l.frame).0) _ _ (decodes (bad_crc st) h refl)
                      (if-both G (not (is_ok (decode encoded l.frame).0)) _ _
                        (decodes (skipped st) h refl)
                        (emit-Goes l n f (v, k) array (omega arith) h)))))))

  either_way :
      (l : Loop C) (t : Turn C)
      → Goes l t
      → ((s : Status) × (l' : Loop C) × (t ≡ finished s l') × IsSound l')
        ⊎ ((l' : Loop C) × (t ≡ continues l')
            × IsSound l'
            × (l'.parser.input.size < l.parser.input.size))
  either_way l _ (stops s l' v) = inl (s, l', refl, v)
  either_way l _ (shrinks l' v h) = inr (l', refl, v, h)

  drain-IsSound :
      (fuel : ℕ) (l : Loop C)
      → IsSound l
      → l.parser.input.size < fuel
      → (s : Status) × (l' : Loop C) × (drain callback fuel l ≡ some (s, l')) × IsSound l'
  unfolding drain
  drain-IsSound zero l v h = absurd (omega arith)
  drain-IsSound (suc fuel) l v h = elim (either_way l _ (turn-Goes l v)) [
    | inl (s, l', e, v') ↦ (s, l', rw (drain, e) refl, v')
    | inr (l', e, v', less) ↦
        let (s, l'', d, v'') = drain-IsSound fuel l' v' (omega arith) in
        (s, l'', rw (drain, e) d, v'')
  ]

  feed_loop-IsSound :
      (fuel : ℕ) (l : Loop C) (xs : List ℕ)
      → IsSound l
      → length xs < fuel
      → (s : Status) × (l' : Loop C) × (feed_loop callback fuel l xs ≡ some (s, l')) × IsSound l'
  unfolding feed_loop
  feed_loop-IsSound zero l xs v h = absurd (omega arith)
  feed_loop-IsSound (suc fuel) l [] v h = drain-IsSound (l.parser.input.size + 1) l v (omega arith)
  feed_loop-IsSound (suc fuel) l (x ∷ xs) (v, k) h =
      let all = x ∷ xs in
      let (n, l1) = received l all in
      let (count, taken, v1) = received_lem l all v in
      let (s, l2, d, v2) = drain-IsSound (l1.parser.input.size + 1) l1 (v1, k) (omega arith) in
      let l3 = overflowed l2 (length (drop n all)) in
      let v3 : IsLoop l3 = record {
        ring = v2.0.ring;
        capacity = v2.0.capacity;
        array = v2.0.array;
        counted = v2.0.counted;
      } in
      elim (Bool-cases (is_ok s)) [
        | inr bad ↦ (s, l2, rw (feed_loop, ring_size, d, bad) refl, v2)
        | inl good ↦ elim (Bool-cases (n == 0)) [
          | inl full ↦ (overflow, l3, rw (feed_loop, ring_size, d, good, full) refl, (v3, v2.1))
          | inr room ↦
              let (s', l', f, v') =
                feed_loop-IsSound fuel l2 (drop n all) v2
                  (ground (arith, room, length-drop n all)) in
              (s', l', rw (feed_loop, ring_size, d, good, room) f, v')
        ]
      ]

  pub feed-IsSound :
      (l : Loop C) (xs : List ℕ)
      → IsSound l
      → (s : Status) × (l' : Loop C) × (feed callback l (at xs) ≡ some (s, l')) × IsSound l'
  unfolding feed
  feed-IsSound l xs (v, k) =
      feed_loop-IsSound (length xs + 1) (record l { emitted = 0 }) xs
        (record { ring = v.ring; capacity = v.capacity; array = v.array; counted = v.counted }, k)
        (omega arith)
