-- ===== src/Daemon/Served/Filling.antt =====
-- A client to which some bytes have come.
use linux_device_manager.Base.{
  ℕ, ◌+◌, ◌-◌, ◌<◌, ◌≤◌, ◌≡◌, ◌⊎◌, inl, inr, sym, ap, ◌∙◌, arith, true, false, ◌&&◌, ltb, List,
  drop, length, length-memcpy, drop-memcpy, get_or-memcpy, Bool-cases, memcpy,
}
use linux_device_manager.Protocol.Le.{get_le32}
use linux_device_manager.Daemon.State.{Client}
use linux_device_manager.Daemon.Input.{taken_in, header_due, announced, sized, is_whole}
use linux_device_manager.Daemon.Served.{Asked, Overlong, IsClient}

get_le32-memcpy :
    (dst : List ℕ) (i : ℕ) (src : List ℕ) → 4 ≤ i → get_le32 (memcpy dst i src) ≡ get_le32 dst
unfolding get_le32
get_le32-memcpy dst i src h = omega (
  arith,
  get_or-memcpy dst i 0 src 0 (omega arith),
  get_or-memcpy dst i 1 src 0 (omega arith),
  get_or-memcpy dst i 2 src 0 (omega arith),
  get_or-memcpy dst i 3 src 0 (omega arith),
)

-- Bytes behind the header leave it as it is.
announced-taken_in :
    (c : Client) (bytes : List ℕ) → 8 ≤ c.input_size → announced (taken_in c bytes) ≡ announced c
announced-taken_in c bytes h =
    ap get_le32 (drop-memcpy 4 c.input c.input_size bytes (omega arith))
    ∙ get_le32-memcpy (drop 4 c.input) (c.input_size - 4) bytes (omega arith)

-- The client after some bytes have come: its buffers, what it has asked, and what it has not.
module _ (c : Client) (bytes : List ℕ) (v : IsClient c) (more : 0 < length bytes)
    (room : c.input_size + length bytes ≤ 4104) where
  abbrev pub filled : Client
  filled = taken_in c bytes

  abbrev pub grown : Client
  grown = sized filled

  -- A client that has asked before keeps its expected size, which is passed now.
  pub asked_before : Asked c → Asked grown × (is_whole grown ≡ false) × (header_due filled ≡ false)
  asked_before asked = ground (arith, asked)

  grown-Overlong : Overlong c → Overlong filled
  grown-Overlong (none_expected, header, beyond) =
      (none_expected, omega arith, rw (announced-taken_in c bytes header) beyond)

  pub whole_asked : is_whole grown ≡ true → Asked grown
  whole_asked whole = ground (arith, whole)

  pub filled-IsClient : Asked filled ⊎ Overlong filled → IsClient filled
  filled-IsClient asked = record {
    input_array = length-memcpy c.input c.input_size bytes ∙ v.input_array;
    output_array = v.output_array;
    received = room;
    responds = λ h. asked;
  }

  pub refused-Overlong : (header_due filled && ltb 4096 (announced filled)) ≡ true → Overlong filled
  refused-Overlong refused = ground (arith, refused)

  pub fitting_lem : (header_due filled && ltb 4096 (announced filled)) ≡ false → Overlong filled → ⊥
  fitting_lem fine over = ground (arith, fine, over)

  pub grown_lem :
      (grown.is_open ≡ c.is_open)
      × (grown.close_after_write ≡ c.close_after_write)
      × (grown.input ≡ filled.input)
      × (grown.input_size ≡ filled.input_size)
      × (grown.output ≡ c.output)
  grown_lem = ground arith

  pub grown-IsClient : (Overlong filled → ⊥) → IsClient grown
  grown-IsClient fine =
      let (opened, closing, input, input_size, output) = grown_lem in
      record {
        input_array = rw input (length-memcpy c.input c.input_size bytes ∙ v.input_array);
        output_array = rw output v.output_array;
        received = rw input_size room;
        responds = λ h. elim (v.responds (sym closing ∙ h)) [
          | inl asked ↦ inl (asked_before asked).0
          | inr over ↦ absurd (fine (grown-Overlong over))
        ];
      }

  -- The request has just become whole: no response was queued before, and the client did not wait.
  pub just_asked : (Overlong filled → ⊥) → is_whole grown ≡ true → grown.close_after_write ≡ false
  just_asked fine whole = elim (Bool-cases (c.close_after_write)) [
    | inr unanswered ↦ grown_lem.1 ∙ unanswered
    | inl answered ↦ elim (v.responds answered) [
      | inl asked ↦ cc (whole, (asked_before asked).1)
      | inr over ↦ absurd (fine (grown-Overlong over))
    ]
  ]
