-- ===== src/Parser/Scan.antt =====
-- How a stream of bytes is taken apart, round by round, and the loops of the parser against it.
use linux_device_manager.Base.{
  ℕ, zero, suc, ◌+◌, ◌<◌, ◌≡◌, refl, sym, ap, arith, ◌⊎◌, inl, inr, Option, none, some, List, ◌++◌,
  length, take, drop, length-drop, length-append, take-append_le, drop-append_le, u64,
}
use linux_device_manager.Status.{ok}
use linux_device_manager.Protocol.Le.{get_le16}
use linux_device_manager.Protocol.Frame.Wire.{Message}
use linux_device_manager.Parser.Drain.{Loop, Turn, finished, continues, drain}
use linux_device_manager.Parser.Stream.{
  Stream, stream, IsLoop, move, turn_lem, Agrees, ends, goes_on, callback,
}

-- More bytes arrive.
abbrev pub arrived : {C : Type 0} → Stream C → List ℕ → Stream C
arrived s xs = record s {
  bytes = s.bytes ++ xs;
  stats = record s.stats { bytes_received = u64 (s.stats.bytes_received + length xs) };
}

module _ {C : Type 0} (on : Message → C → C) where
  -- The rounds from one stream on, up to one in which the parser waits for more bytes.
  pub data Scans : Stream C → Stream C → Type 0 where
    waits : (s : Stream C) → move on s ≡ none → Scans s s
    goes : (s s' t : Stream C) → move on s ≡ some s' → Scans s' t → Scans s t

  move_shorter : (s s' : Stream C) → move on s ≡ some s' → length s'.bytes < length s.bytes
  unfolding move
  move_shorter s s' h = ground (
    arith,
    length-drop 1 s.bytes,
    length-drop (12 + get_le16 (drop 10 (take 12 s.bytes)) + 4) s.bytes,
  )

  -- A parser that waits holds less than the longest frame.
  move_waits : (s : Stream C) → move on s ≡ none → length s.bytes < 4112
  unfolding move
  move_waits s h = ground arith

  -- A round is the same when more bytes are there.
  move-arrived :
      (s s' : Stream C) (xs : List ℕ)
      → move on s ≡ some s'
      → move on (arrived s xs) ≡ some (arrived s' xs)
  unfolding move
  move-arrived s s' xs h =
      let n = 12 + get_le16 (drop 10 (take 12 s.bytes)) + 4 in
      ground (
        arith,
        length-append s.bytes xs,
        take-append_le s.bytes xs 2,
        take-append_le s.bytes xs 12,
        take-append_le s.bytes xs n,
        drop-append_le s.bytes xs 1,
        drop-append_le s.bytes xs n,
      )

  agreed :
      (l : Loop C) (t : Turn C) (m : Option (Stream C))
      → Agrees on l t m
      → ((t ≡ finished ok l) × (m ≡ none))
        ⊎ ((l' : Loop C) × (t ≡ continues l') × (m ≡ some (stream l')) × IsLoop l')
  agreed l _ _ ends = inl (refl, refl)
  agreed l _ _ (goes_on l' s e v) = inr (l', refl, ap some (sym e), v)

  -- With more fuel than there are bytes, `parser_drain` ends well, where the rounds end.
  pub drain_lem :
      (fuel : ℕ) (l : Loop C)
      → IsLoop l
      → length (stream l).bytes < fuel
      → (l' : Loop C) × (drain (callback on) fuel l ≡ some (ok, l'))
        × Scans (stream l) (stream l')
        × IsLoop l'
  unfolding drain
  drain_lem zero l v h = absurd (omega arith)
  drain_lem (suc fuel) l v h = elim (agreed l _ _ (turn_lem on l v)) [
    | inl r ↦ (l, rw (drain, r.0) refl, waits (stream l) r.1, v)
    | inr r ↦
        let (l', t, m, v') = r in
        let shorter = move_shorter (stream l) (stream l') m in
        let (l'', d, rounds, v'') = drain_lem fuel l' v' (omega arith) in
        (l'', rw (drain, t) d, goes (stream l) (stream l') (stream l'') m rounds, v'')
  ]

  -- Where the rounds end, less than the longest frame waits.
  pub Scans-short : (s t : Stream C) → Scans s t → length t.bytes < 4112
  Scans-short s _ (waits _ h) = move_waits s h
  Scans-short s t (goes _ s' _ h rounds) = Scans-short s' t rounds

  -- The rounds from one stream on all end in the same.
  pub Scans-unique : (s t t' : Stream C) → Scans s t → Scans s t' → t ≡ t'
  Scans-unique s _ _ (waits _ h) (waits _ h') = refl
  Scans-unique s _ t' (waits _ h) (goes _ s' _ h' rounds) = cc (h, h')
  Scans-unique s t _ (goes _ s' _ h rounds) (waits _ h') = cc (h, h')
  Scans-unique s t t' (goes _ s1 _ h rounds) (goes _ s2 _ h' rounds') =
      let same : s2 ≡ s1 = cc (h, h') in Scans-unique s1 t t' rounds (rw same at rounds')

  -- Bytes that arrive after some rounds might as well have been there before.
  pub Scans-arrived :
      (s t u : Stream C) (xs : List ℕ) → Scans s t → Scans (arrived t xs) u → Scans (arrived s xs) u
  Scans-arrived s _ u xs (waits _ h) later = later
  Scans-arrived s t u xs (goes _ s' _ h rounds) later =
      goes (arrived s xs) (arrived s' xs) u (move-arrived s s' xs h)
        (Scans-arrived s' t u xs rounds later)
