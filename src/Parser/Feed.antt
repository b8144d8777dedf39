-- ===== src/Parser/Feed.antt =====
-- `devmgr_parser_feed`: it takes all bytes, and how they are cut into calls does not matter.
use Prim.Native.Nat.{min}
use linux_device_manager.Base.{
  ℕ, zero, suc, ◌+◌, ◌-◌, ◌^◌, ◌<◌, ◌≡◌, ap, ap₂, arith, ◌∙◌, false, some, List, [], ◌∷◌, ◌++◌,
  length, take, drop, length-drop, length-append, length-take, take-append-drop, append-nil,
  append_assoc, ◌==◌,
}
use linux_device_manager.Status.{ok}
use linux_device_manager.Span.{at}
use linux_device_manager.Protocol.Frame.Wire.{Message}
use linux_device_manager.Ring.Contents.{length-contents}
use linux_device_manager.Ring.Write.{write_lem}
use linux_device_manager.Parser.Drain.{Loop, received, feed_loop, feed, parser_capacity}
use linux_device_manager.Parser.Stream.{Stream, stream, IsLoop, callback}
use linux_device_manager.Parser.Scan.{
  arrived, Scans, drain_lem, Scans-short, Scans-unique, Scans-arrived,
}

module _ {C : Type 0} where
  arrived-nil : (s : Stream C) → s.stats.bytes_received < 2 ^ 64 → arrived s [] ≡ s
  arrived-nil s h =
      ap₂
        (λ (b : List ℕ) (k : ℕ). record s {
          bytes = b;
          stats = record s.stats { bytes_received = k };
        })
        (append-nil s.bytes) (omega arith)

  arrived-append :
      (s : Stream C) (xs ys : List ℕ) → arrived (arrived s xs) ys ≡ arrived s (xs ++ ys)
  arrived-append s xs ys =
      ap₂
        (λ (b : List ℕ) (k : ℕ). record s {
          bytes = b;
          stats = record s.stats { bytes_received = k };
        })
        (append_assoc s.bytes xs ys) (omega (arith, length-append xs ys))

  -- The ring takes as many bytes as it has room for.
  pub received_lem :
      (l : Loop C) (xs : List ℕ)
      → IsLoop l
      → let (n, l1) = received l xs in
        (n ≡ min (length xs) (parser_capacity - length (stream l).bytes))
        × (stream l1 ≡ arrived (stream l) (take n xs))
        × IsLoop l1
  received_lem l xs v =
      let (count, bytes, ring, capacity) = write_lem l.parser.input xs v.ring in
      let size = length-contents l.parser.input v.ring in
      (
        omega (arith, v.capacity),
        ap₂
            (λ (b : List ℕ) (k : ℕ). record (stream l) {
              bytes = b;
              stats = record l.parser.stats { bytes_received = k };
            })
            (rw count bytes) (omega (arith, v.capacity, length-take (received l xs).0 xs)),
        record {
          ring = ring;
          capacity = capacity ∙ v.capacity;
          array = v.array;
          counted = omega arith;
        },
      )

module _ {C : Type 0} (on : Message → C → C) where
  feed_loop_lem :
      (fuel : ℕ) (l : Loop C) (xs : List ℕ)
      → IsLoop l
      → length (stream l).bytes < parser_capacity
      → length xs < fuel
      → (l' : Loop C) × (feed_loop (callback on) fuel l xs ≡ some (ok, l'))
        × Scans on (arrived (stream l) xs) (stream l')
        × IsLoop l'
  unfolding feed_loop
  feed_loop_lem zero l xs v room h = absurd (omega arith)
  feed_loop_lem (suc fuel) l [] v room h =
      let size = length-contents l.parser.input v.ring in
      let (l', d, rounds, v') = drain_lem on (l.parser.input.size + 1) l v (omega arith) in
      (l', d, rw (arrived-nil (stream l) v.counted) rounds, v')
  feed_loop_lem (suc fuel) l (x ∷ xs) v room h =
      let all = x ∷ xs in
      let (n, l1) = received l all in
      let (count, taken, v1) = received_lem l all v in
      let size = length-contents l1.parser.input v1.ring in
      let (l2, d, rounds, v2) = drain_lem on (l1.parser.input.size + 1) l1 v1 (omega arith) in
      let short = Scans-short on (stream l1) (stream l2) rounds in
      let (l', f, later, v') =
        feed_loop_lem fuel l2 (drop n all) v2 (omega arith) (omega (arith, length-drop n all)) in
      let nonzero : (n == 0) ≡ false = ground arith in
      let whole : arrived (stream l1) (drop n all) ≡ arrived (stream l) all =
        ap (λ (s : Stream C). arrived s (drop n all)) taken
        ∙ (arrived-append (stream l) (take n all) (drop n all)
            ∙ ap (arrived (stream l)) (take-append-drop n all)) in
      let scanned =
        Scans-arrived on (stream l1) (stream l2) (stream l') (drop n all) rounds later in
      (l', rw (feed_loop, d, nonzero) f, rw whole at scanned, v')

  pub feed_lem :
      (l : Loop C) (xs : List ℕ)
      → IsLoop l
      → length (stream l).bytes < parser_capacity
      → (l' : Loop C) × (feed (callback on) l (at xs) ≡ some (ok, l'))
        × Scans on (arrived (stream l) xs) (stream l')
        × IsLoop l'
  unfolding feed
  feed_lem l xs v room =
      feed_loop_lem (length xs + 1) (record l { emitted = 0 }) xs
        (record { ring = v.ring; capacity = v.capacity; array = v.array; counted = v.counted }) room
        (omega arith)

  -- With a callback that succeeds and looks at the message of a frame, `devmgr_parser_feed` on a
  -- parser that is not full takes all bytes, whatever they are, and returns DEVMGR_OK: nothing
  -- overflows. It leaves less than the longest frame waiting. And two calls, one after the other,
  -- leave the bytes that wait, the counters and the callback's context as one call on all bytes
  -- would.
  pub feed_twice :
      (l : Loop C) (xs ys : List ℕ)
      → IsLoop l
      → length (stream l).bytes < parser_capacity
      → (l1 : Loop C) × (l2 : Loop C) × (l3 : Loop C) × (feed (callback on) l (at xs)
          ≡ some (ok, l1))
        × (feed (callback on) l1 (at ys) ≡ some (ok, l2))
        × (feed (callback on) l (at (xs ++ ys)) ≡ some (ok, l3))
        × (stream l2 ≡ stream l3)
        × (length (stream l1).bytes < 4112)
        × IsLoop l2
  feed_twice l xs ys v room =
      let (l1, e1, s1, v1) = feed_lem l xs v room in
      let short = Scans-short on (arrived (stream l) xs) (stream l1) s1 in
      let (l2, e2, s2, v2) = feed_lem l1 ys v1 (omega arith) in
      let (l3, e3, s3, v3) = feed_lem l (xs ++ ys) v room in
      let cut = Scans-arrived on (arrived (stream l) xs) (stream l1) (stream l2) ys s1 s2 in
      let joined = rw (arrived-append (stream l) xs ys) at cut in
      let same =
        Scans-unique on (arrived (stream l) (xs ++ ys)) (stream l2) (stream l3) joined s3 in
      (l1, l2, l3, e1, e2, e3, same, short, v2)
