-- ===== src/Daemon/Input/Arriving.antt =====
-- A client's request arrives in parts.
use linux_device_manager.Base.{
  ℕ, zero, suc, ◌+◌, ◌<◌, ◌≤◌, ◌≡◌, refl, sym, ap, ◌∙◌, arith, false, ◌&&◌, ◌==◌, ltb, List, [],
  ◌∷◌, ◌++◌, if◌then◌else◌, take, drop, get_or, length, length-memcpy, length-drop, length-append,
  take-append, take-memcpy, take-append_drop,
}
use linux_device_manager.Protocol.Le.{get_le32}
use linux_device_manager.Daemon.State.{Client}
use linux_device_manager.Daemon.Calls.{Receipt, gives}
use linux_device_manager.Daemon.Input.{taken_in, header_due, announced, sized, is_whole}

-- The bytes that some calls of `read` bring.
abbrev pub brought : List Receipt → List ℕ
brought [] = []
brought (Receipt.interrupted ∷ later) = brought later
brought (Receipt.failed ∷ later) = []
brought (gives xs ∷ later) = xs ++ brought later

-- No call fails, or finds the connection closed.
abbrev pub IsSteady : List Receipt → Type 0
IsSteady [] = Unit
IsSteady (Receipt.interrupted ∷ later) = IsSteady later
IsSteady (Receipt.failed ∷ later) = ⊥
IsSteady (gives xs ∷ later) = (0 < length xs) × IsSteady later

-- A client of which the first `n` bytes of a request have come.
pub record HasReceived (w : List ℕ) (n : ℕ) (c : Client) : Type 0 where
  pub size : c.input_size ≡ n
  pub start : take n c.input ≡ take n w
  pub array : length c.input ≡ 4104
  pub header : c.expected_size ≡ (if ltb n 8 then 0 else length w)

get_or-take :
    (xs ys : List ℕ) (i n : ℕ) → i < n → take n xs ≡ take n ys → get_or xs i 0 ≡ get_or ys i 0
get_or-take xs ys i zero h e = absurd (omega arith)
get_or-take [] [] i (suc n) h e = refl
get_or-take [] (y ∷ ys) i (suc n) h e = cc e
get_or-take (x ∷ xs) [] i (suc n) h e = cc e
get_or-take (x ∷ xs) (y ∷ ys) zero (suc n) h e = cc e
get_or-take (x ∷ xs) (y ∷ ys) (suc i) (suc n) h e = get_or-take xs ys i n (omega arith) (cc e)

get_or-drop : (xs : List ℕ) (k i : ℕ) → get_or (drop k xs) i 0 ≡ get_or xs (k + i) 0
get_or-drop xs zero i = ap (λ (j : ℕ). get_or xs j 0) {x = i} (omega arith)
get_or-drop [] (suc k) i = refl
get_or-drop (x ∷ xs) (suc k) i =
    get_or-drop xs k i ∙ ap (λ (j : ℕ). get_or (x ∷ xs) j 0) {x = suc (k + i)} (omega arith)

-- The length in a header is that of any bytes which begin as these.
same_header :
    (xs ys : List ℕ) (n : ℕ)
    → 8 ≤ n
    → take n xs ≡ take n ys
    → get_le32 (drop 4 xs) ≡ get_le32 (drop 4 ys)
unfolding get_le32
same_header xs ys n h e = omega (
  arith,
  get_or-drop xs 4 0,
  get_or-drop xs 4 1,
  get_or-drop xs 4 2,
  get_or-drop xs 4 3,
  get_or-drop ys 4 0,
  get_or-drop ys 4 1,
  get_or-drop ys 4 2,
  get_or-drop ys 4 3,
  get_or-take xs ys 4 n (omega arith) e,
  get_or-take xs ys 5 n (omega arith) e,
  get_or-take xs ys 6 n (omega arith) e,
  get_or-take xs ys 7 n (omega arith) e,
)

-- One more part of the request.
module _ (w xs rest : List ℕ) (n k : ℕ) (c : Client) (long : length w ≡ 8 + k) (short : k ≤ 4096)
    (says : get_le32 (drop 4 w) ≡ k) (v : HasReceived w n c) (next : xs ++ rest ≡ drop n w)
    (more : 0 < length xs) where
  abbrev pub m : ℕ
  m = n + length xs

  abbrev pub filled : Client
  filled = taken_in c xs

  abbrev pub grown : Client
  grown = sized filled

  pub in_range : m + length rest ≡ length w
  in_range = omega (arith, ap (length {A = ℕ}) next, length-append xs rest, length-drop n w)

  filled_start : take m filled.input ≡ take m w
  filled_start =
      let part : take (length xs) (drop n w) ≡ xs =
        rw (← next) (take-append xs rest (length xs) refl) in
      rw v.size (
        take-memcpy c.input n m xs refl (omega (arith, in_range, v.array))
        ∙ (ap (λ (l : List ℕ). l ++ xs) v.start
            ∙ (ap (λ (l : List ℕ). take n w ++ l) (sym part)
                ∙ take-append_drop n (length xs) m w refl)))

  filled_says : 8 ≤ m → announced filled ≡ k
  filled_says h = same_header filled.input w m h filled_start ∙ says

  pub not_refused : (header_due filled && ltb 4096 (announced filled)) ≡ false
  not_refused = ground (arith, filled_says, v.size, v.header)

  grown_expects : grown.expected_size ≡ (if ltb m 8 then 0 else length w)
  grown_expects = ground (arith, filled_says, v.size, v.header, long, in_range)

  grown_keeps : (grown.input ≡ filled.input) × (grown.input_size ≡ filled.input_size)
  grown_keeps = ground arith

  pub grown-HasReceived : HasReceived w m grown
  grown-HasReceived = record {
    size = grown_keeps.1 ∙ ap (λ (i : ℕ). i + length xs) v.size;
    start = rw (grown_keeps.0) filled_start;
    array = rw (grown_keeps.0) (length-memcpy c.input c.input_size xs ∙ v.array);
    header = grown_expects;
  }

  pub grown_whole : is_whole grown ≡ (m == length w)
  grown_whole = rw (grown_expects, grown_keeps.1, v.size) (ground (arith, long))
