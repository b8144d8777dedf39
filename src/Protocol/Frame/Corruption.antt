-- ===== src/Protocol/Frame/Corruption.antt =====
-- What a damaged frame looks like to `devmgr_frame_decode`.
use native.Mathlib.Decide.{dec_lt}
use linux_device_manager.Base.{
  ℕ, suc, ◌+◌, ◌-◌, ◌≤◌, ◌<◌, ◌≡◌, ◌≢◌, refl, sym, ap, ◌∙◌, arith, List, ◌∷◌, ◌++◌, length, take,
  drop, get_or, length-append, take-append, drop-append, get_or-append_cons, take-append_le,
  take-append_cons, drop-append_cons, true, false, inl, inr, Bool-cases,
}
use linux_device_manager.Status.{Status, is_ok, is_ok→ok}
use linux_device_manager.Span.{
  at, AreBytes, append-AreBytes, append-AreBytes_left, append-AreBytes_right,
}
use linux_device_manager.Crc.{crc32}
use linux_device_manager.Crc.Detect.{crc32_detects_byte}
use linux_device_manager.Protocol.Constants.{max_payload}
use linux_device_manager.Protocol.Le.{put_le32, put_le32_inj, put_le32-AreBytes}
use linux_device_manager.Protocol.Frame.{Frame, decode}
use linux_device_manager.Protocol.Frame.Wire.{Message, message, IsMessage, body, wire}
use linux_device_manager.Protocol.Frame.RoundTrip.{
  length-body, length-wire, body-AreBytes, crc32-body-lt,
}
use linux_device_manager.Protocol.Frame.Canonical.{decode_canonical}

take-wire : (m : Message) (k : ℕ) → k ≡ length (body m) → take k (wire m) ≡ body m
unfolding wire
take-wire m k e = take-append (body m) (put_le32 (crc32 (at (body m)))) k e

drop-wire :
    (m : Message) (k : ℕ) → k ≡ length (body m) → drop k (wire m) ≡ put_le32 (crc32 (at (body m)))
unfolding wire
drop-wire m k e = drop-append (body m) (put_le32 (crc32 (at (body m)))) k e

pub wire-AreBytes : (m : Message) → IsMessage m → AreBytes (wire m)
unfolding wire
wire-AreBytes m v =
    append-AreBytes (body m) (put_le32 (crc32 (at (body m)))) (body-AreBytes m v)
      (put_le32-AreBytes (crc32 (at (body m))))

-- Two messages whose wire bytes differ at one place at most.
module _ (m n : Message) (v : IsMessage m) (w : IsMessage n) (pre post : List ℕ) (x y : ℕ)
    (xe : pre ++ (x ∷ post) ≡ wire m) (ye : pre ++ (y ∷ post) ≡ wire n) where
  same_size : length (body n) ≡ length (body m)
  same_size = omega (
    arith,
    ap (length {0}) xe,
    ap (length {0}) ye,
    length-append {0} pre (x ∷ post),
    length-append {0} pre (y ∷ post),
    length-wire m,
    length-wire n,
    length-body m,
    length-body n,
  )

  -- The place lies before the CRC: the CRC shows the change.
  same_before : (k : ℕ) → length (body m) ≡ length pre + suc k → ¬ (x ≢ y)
  same_before k e ne =
      crc32_detects_byte pre (take k post) x y pre_bytes mid_bytes x_byte y_byte ne (
        ap (λ (l : List ℕ). crc32 (at l)) (sym bm)
        ∙ same_crc
        ∙ ap (λ (l : List ℕ). crc32 (at l)) bn)
    where
      bm : body m ≡ pre ++ (x ∷ take k post)
      bm =
          sym (take-wire m (length (body m)) refl)
          ∙ ap (take (length (body m))) (sym xe)
          ∙ take-append_cons pre post x (length (body m)) k e

      bn : body n ≡ pre ++ (y ∷ take k post)
      bn =
          sym (take-wire n (length (body m)) (sym same_size))
          ∙ ap (take (length (body m))) (sym ye)
          ∙ take-append_cons pre post y (length (body m)) k e

      same_crc : crc32 (at (body m)) ≡ crc32 (at (body n))
      same_crc =
          put_le32_inj (crc32 (at (body m))) (crc32 (at (body n))) (crc32-body-lt m v)
            (crc32-body-lt n w)
            (sym (drop-wire m (length (body m)) refl)
              ∙ ap (drop (length (body m))) (sym xe)
              ∙ drop-append_cons pre post x (length (body m)) k e
              ∙ sym (drop-append_cons pre post y (length (body m)) k e)
              ∙ ap (drop (length (body m))) ye
              ∙ drop-wire n (length (body m)) (sym same_size))

      m_bytes : AreBytes (pre ++ (x ∷ take k post))
      m_bytes = rw (← bm) (body-AreBytes m v)

      n_bytes : AreBytes (pre ++ (y ∷ take k post))
      n_bytes = rw (← bn) (body-AreBytes n w)

      pre_bytes : AreBytes pre
      pre_bytes = append-AreBytes_left pre (x ∷ take k post) m_bytes

      mid_bytes : AreBytes (take k post)
      mid_bytes = (append-AreBytes_right pre (x ∷ take k post) m_bytes).1

      x_byte : x < 256
      x_byte = (append-AreBytes_right pre (x ∷ take k post) m_bytes).0

      y_byte : y < 256
      y_byte = (append-AreBytes_right pre (y ∷ take k post) n_bytes).0

  -- The place lies in the CRC: the bytes before it fix what the CRC is.
  same_behind : length (body m) ≤ length pre → x ≡ y
  same_behind h =
      sym (get_or-append_cons pre post x 0)
      ∙ ap (λ (l : List ℕ). get_or l (length pre) 0) (xe ∙ same_wire ∙ sym ye)
      ∙ get_or-append_cons pre post y 0
    where
      same_body : body m ≡ body n
      same_body =
          sym (take-wire m (length (body m)) refl)
          ∙ ap (take (length (body m))) (sym xe)
          ∙ take-append_le pre (x ∷ post) (length (body m)) h
          ∙ sym (take-append_le pre (y ∷ post) (length (body m)) h)
          ∙ ap (take (length (body m))) ye
          ∙ take-wire n (length (body m)) (sym same_size)

      same_wire : wire m ≡ wire n
      same_wire = unfold wire in ap (λ (l : List ℕ). l ++ put_le32 (crc32 (at l))) same_body

  not_both : ¬ (x ≢ y)
  not_both ne = elim (dec_lt (length pre) (length (body m))) [
    | yes h ↦ same_before (length (body m) - suc (length pre)) (omega arith) ne
    | no h ↦ ne (same_behind (omega arith))
  ]

-- `devmgr_frame_decode` refuses the bytes of every message in which one byte, wherever it
-- stands, has been replaced by another one.
pub decode_refuses_changed_byte :
    (m : Message) (g : Frame) (pre post : List ℕ) (x y : ℕ)
    → IsMessage m
    → length g.payload ≡ max_payload
    → wire m ≡ pre ++ (x ∷ post)
    → y < 256
    → x ≢ y
    → is_ok (decode (pre ++ (y ∷ post)) g).0 ≡ false
decode_refuses_changed_byte m g pre post x y v array e hy ne =
    elim (Bool-cases (is_ok (decode (pre ++ (y ∷ post)) g).0)) [
      | inr refused ↦ refused
      | inl accepted ↦ absurd (both accepted)
    ]
  where
    m_bytes : AreBytes (pre ++ (x ∷ post))
    m_bytes = rw (← e) (wire-AreBytes m v)

    bytes : AreBytes (pre ++ (y ∷ post))
    bytes =
        append-AreBytes pre (y ∷ post) (append-AreBytes_left pre (x ∷ post) m_bytes)
          (hy, (append-AreBytes_right pre (x ∷ post) m_bytes).1)

    both : ¬ (is_ok (decode (pre ++ (y ∷ post)) g).0 ≡ true)
    both accepted =
        let f = (decode (pre ++ (y ∷ post)) g).1 in
        let (frame_ok, f_wire) =
          decode_canonical (pre ++ (y ∷ post)) g f bytes array
            (ap (λ (s : Status). (s, f)) (is_ok→ok (decode (pre ++ (y ∷ post)) g).0 accepted)) in
        not_both m (message f) v frame_ok.says pre post x y (sym e) f_wire ne
