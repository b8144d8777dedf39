-- ===== src/Simulator/Output/Damage.antt =====
-- What a frame becomes that the simulator sends with its faults.
use linux_device_manager.Base.{
  ℕ, zero, suc, ◌+◌, ◌≤◌, ◌<◌, ◌≡◌, ◌≢◌, ◌⊎◌, inl, inr, refl, sym, ap, ◌∙◌, arith, Bool, true,
  false, Option, none, some, List, [], ◌∷◌, ◌++◌, ◌&&◌, ltb, if◌then◌else◌, if-both, length,
  bit_xor-lt, bit_xor_left_inj, bit_xor_comm, zero-bit_xor, take-overwrite, length-take,
}
use Prim.Native.Nat.{bit_xor}
use linux_device_manager.Status.{Status, ok, is_ok}
use linux_device_manager.Span.{append-AreBytes_right}
use linux_device_manager.Protocol.Constants.{max_payload, header_size}
use linux_device_manager.Protocol.Frame.{Frame, decode}
use linux_device_manager.Protocol.Frame.Wire.{Message, message, IsMessage, IsFrame, wire}
use linux_device_manager.Protocol.Frame.RoundTrip.{encode-decode, encode_lem, length-wire}
use linux_device_manager.Protocol.Frame.Corruption.{decode_refuses_changed_byte, wire-AreBytes}
use linux_device_manager.Simulator.State.{Simulator, is_below}
use linux_device_manager.Simulator.Output.{
  Outcome, write_loop, flip, drawn, outgoing, finished, write_frame,
}
use linux_device_manager.Simulator.Output.Faults.{write_loop_whole}

bit_xor-ne : (x : ℕ) → x ≢ bit_xor x 0x40
bit_xor-ne x e =
    let same : 0x40 ≡ 0 =
      bit_xor_left_inj 0x40 0 x (bit_xor_comm 0x40 x ∙ sym e ∙ sym (zero-bit_xor x)) in
    absurd (omega (arith, same))

record Flipped (i : ℕ) (xs : List ℕ) : Type 0 where
  before : List ℕ
  byte : ℕ
  behind : List ℕ
  was : xs ≡ before ++ (byte ∷ behind)
  is : flip i xs ≡ before ++ (bit_xor byte 0x40 ∷ behind)

flip-Flipped : (i : ℕ) (xs : List ℕ) → i < length xs → Flipped i xs
flip-Flipped i [] h = absurd (omega arith)
flip-Flipped zero (x ∷ xs) h = record { before = []; byte = x; behind = xs; was = refl; is = refl }
flip-Flipped (suc i) (x ∷ xs) h =
    let f = flip-Flipped i xs (omega arith) in
    record {
      before = x ∷ f.before;
      byte = f.byte;
      behind = f.behind;
      was = ap (λ l. x ∷ l) f.was;
      is = ap (λ l. x ∷ l) f.is;
    }

decode_refuses_flip :
    (m : Message) (g : Frame) (i : ℕ)
    → IsMessage m
    → length g.payload ≡ max_payload
    → i < length (wire m)
    → is_ok (decode (flip i (wire m)) g).0 ≡ false
decode_refuses_flip m g i v array h =
    let f = flip-Flipped i (wire m) h in
    let bytes =
      append-AreBytes_right f.before (f.byte ∷ f.behind) (rw f.was at (wire-AreBytes m v)) in
    rw f.is (
      decode_refuses_changed_byte m g f.before f.behind f.byte (bit_xor f.byte 0x40) v array f.was
        (bit_xor-lt 8 f.byte 0x40 bytes.0 (omega arith)) (bit_xor-ne f.byte))

finished_ok :
    (r : Option (Status × List ℕ)) (s s' : Simulator) (out : List ℕ)
    → finished s r ≡ some (ok, s', out)
    → r ≡ some (ok, out)
finished_ok none s s' out h = ground arith
finished_ok (some (verdict, o)) s s' out h = ground arith

-- The branches of `write_frame`.
branches :
    (outage dropped : Bool) (s s1 s' : Simulator) (out : List ℕ)
    (r : Option (Status × Simulator × List ℕ))
    → (if outage then some (ok, s, []) else if dropped then some (ok, s1, []) else r)
      ≡ some (ok, s', out)
    → (out ≡ []) ⊎ (r ≡ some (ok, s', out))
branches true dropped s s1 s' out r h = inl (ground arith)
branches false true s s1 s' out r h = inl (ground arith)
branches false false s s1 s' out r h = inr h

outgoing-cases :
    (s : Simulator) (bytes : List ℕ)
    → (outgoing s bytes ≡ bytes) ⊎ (outgoing s bytes ≡ flip header_size bytes)
outgoing-cases s bytes =
    if-both (λ l. (l ≡ bytes) ⊎ (l ≡ flip header_size bytes))
      (is_below s.random_state s.corrupt_rate && ltb header_size (length bytes))
      (flip header_size bytes) bytes (inr refl) (inl refl)

-- What goes out when `write_frame` succeeds: nothing, the frame, or the frame with a bit flipped.
write_frame-cases :
    (now_ns : ℕ) (stack : List ℕ) (outcomes : List Outcome) (s s' : Simulator) (f : Frame)
    (out : List ℕ)
    → IsFrame f
    → 16 + f.payload_length ≤ length stack
    → write_frame now_ns stack outcomes s f ≡ some (ok, s', out)
    → (out ≡ []) ⊎ ((out ≡ wire (message f)) ⊎ (out ≡ flip header_size (wire (message f))))
unfolding write_frame
write_frame-cases now_ns stack outcomes s s' f out v room h =
    let m = message f in
    let bytes = wire m in
    let size : 16 + f.payload_length ≡ length bytes =
      omega (arith, length-wire m, length-take f.payload_length f.payload, v.array, v.fits) in
    let s2 = drawn (drawn s) in
    let sent =
      rw
        (
          encode_lem f stack 0 v room,
          take-overwrite stack bytes (16 + f.payload_length) size (omega (arith, size)),
        )
        at h in
    elim (branches (ltb now_ns s.outage_until_ns) (is_below (drawn s).random_state s.drop_rate) s
      (drawn s) s' out (finished s2 (write_loop (outgoing s2 bytes) outcomes)) sent) [
        | inl none_sent ↦ inl none_sent
        | inr some_sent ↦
            let whole =
              write_loop_whole (outgoing s2 bytes) outcomes out
                (finished_ok (write_loop (outgoing s2 bytes) outcomes) s2 s' out some_sent) in
            elim (outgoing-cases s2 bytes) [
              | inl same ↦ inr (inl (whole ∙ same))
              | inr flipped ↦ inr (inr (whole ∙ flipped))
            ]
      ]

decode-nil : (g : Frame) → is_ok (decode [] g).0 ≡ false
unfolding decode
decode-nil g = refl

-- The simulator's faults never deliver another message: when `write_frame` succeeds on a well-formed
-- frame, with a buffer that has room, whatever is lost, corrupted or written in parts, then what
-- goes out either is refused by `devmgr_frame_decode` or decodes to the frame's message.
pub write_frame_delivers :
    (now_ns : ℕ) (stack : List ℕ) (outcomes : List Outcome) (s s' : Simulator) (f g f' : Frame)
    (out : List ℕ)
    → IsFrame f
    → 16 + f.payload_length ≤ length stack
    → length g.payload ≡ max_payload
    → write_frame now_ns stack outcomes s f ≡ some (ok, s', out)
    → decode out g ≡ (ok, f')
    → message f' ≡ message f
write_frame_delivers now_ns stack outcomes s s' f g f' out v room array h e =
    let bytes = wire (message f) in
    let size : 16 + f.payload_length ≡ length bytes =
      omega
        (arith, length-wire (message f), length-take f.payload_length f.payload, v.array, v.fits) in
    let accepted : is_ok (decode out g).0 ≡ true = rw e refl in
    elim (write_frame-cases now_ns stack outcomes s s' f out v room h) [
      | inl nothing ↦ let refused = decode-nil g in cc (refused, accepted, nothing)
      | inr (inl same) ↦
          let (q, q', says) = encode-decode f g stack 0 v array room in
          let delivered =
            rw
              (
                encode_lem f stack 0 v room,
                take-overwrite stack bytes (16 + f.payload_length) size (omega (arith, size)),
                ← same,
                e,
              )
              at says in
          delivered
      | inr (inr flipped) ↦
          let refused : is_ok (decode (flip header_size bytes) g).0 ≡ false =
            decode_refuses_flip (message f) g header_size v.says array (omega (arith, size)) in
          cc (refused, accepted, flipped)
    ]
