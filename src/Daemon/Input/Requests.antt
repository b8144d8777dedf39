-- ===== src/Daemon/Input/Requests.antt =====
-- However its bytes are cut into parts, a client's request is started once it is whole.
use native.Mathlib.Nat.{add-zero}
use linux_device_manager.Base.{
  ℕ, zero, suc, ◌+◌, ◌-◌, ◌<◌, ◌≤◌, ◌≡◌, ◌⊎◌, inl, inr, refl, sym, ap, ◌∙◌, arith, false, ◌==◌,
  some, List, [], ◌∷◌, ◌++◌, if◌then◌else◌, take, drop, length, take-length, drop-append,
  append_assoc, Bool-cases, overwrite, length-append, length-replicate, take-overwrite, length-take,
}
use linux_device_manager.Status.{Status, ok}
use linux_device_manager.Protocol.Le.{get_le32}
use linux_device_manager.Ipc.Codec.{Request, encode_request, decode_request}
use linux_device_manager.Ipc.RoundTrip.{IsRequest, encoded_request_lem}
use linux_device_manager.Daemon.State.{Client, Daemon, Surroundings, changed, client_at}
use linux_device_manager.Daemon.Clients.{start_request}
use linux_device_manager.Daemon.Calls.{Receipt, gives}
use linux_device_manager.Daemon.Input.{
  put_client, blank_request, taken_in, sized, is_whole, handle_request, input_loop,
  handle_client_input,
}
use linux_device_manager.Daemon.Served.{client_at-changed_self}
use linux_device_manager.Daemon.Input.Arriving.{
  brought, IsSteady, HasReceived, in_range, not_refused, grown-HasReceived, grown_whole,
}

changed_twice :
    (c c' : Client) (index : ℕ) (cs : List Client)
    → changed (λ (old : Client). c') index (changed (λ (old : Client). c) index cs)
      ≡ changed (λ (old : Client). c') index cs
changed_twice c c' index [] = refl
changed_twice c c' zero (x ∷ cs) = refl
changed_twice c c' (suc index) (x ∷ cs) = ap (λ l. x ∷ l) (changed_twice c c' index cs)

changed_same :
    (c : Client) (index : ℕ) (cs : List Client)
    → client_at cs index ≡ some c
    → changed (λ (old : Client). c) index cs ≡ cs
changed_same c index [] h = refl
changed_same c zero (x ∷ cs) h = ap (λ (y : Client). y ∷ cs) (cc h)
changed_same c (suc index) (x ∷ cs) h = ap (λ l. x ∷ l) (changed_same c index cs h)

pub drop-drop : (n k m : ℕ) (xs : List ℕ) → m ≡ n + k → drop m xs ≡ drop k (drop n xs)
drop-drop zero k m xs e = ap (λ (i : ℕ). drop i xs) (omega arith)
drop-drop (suc n) k zero xs e = absurd (omega arith)
drop-drop (suc n) zero (suc m) [] e = refl
drop-drop (suc n) (suc k) (suc m) [] e = refl
drop-drop (suc n) k (suc m) (x ∷ xs) e = drop-drop n k m xs (omega arith)

-- What is left of the request after a part of it.
next_part : (w xs rest : List ℕ) (n : ℕ) → xs ++ rest ≡ drop n w → rest ≡ drop (n + length xs) w
next_part w xs rest n next = sym (
    drop-drop n (length xs) (n + length xs) w refl
    ∙ rw (← next) (drop-append xs rest (length xs) refl))

-- The request with the bytes `w`, for the client in the slot `index`.
module _ (e : Surroundings) (index : ℕ) (w : List ℕ) (k : ℕ) (request : Request)
    (long : length w ≡ 8 + k) (short : k ≤ 4096) (says : get_le32 (drop 4 w) ≡ k)
    (decodes : decode_request w blank_request ≡ (ok, request)) where
  -- After `m` bytes the client waits for more, or its request is started.
  abbrev pub After : Daemon → ℕ → (Status × Daemon) → Type 0
  After d m result =
      ((m < length w) × (c : Client) × (result ≡ (ok, put_client d index c)) × HasReceived w m c)
      ⊎ ((m ≡ length w)
          × (c : Client) × (result ≡ start_request e (put_client d index c) index request))

  twice-After :
      (d : Daemon) (c : Client) (m m' : ℕ) (result : Status × Daemon)
      → m ≡ m'
      → After (put_client d index c) m result
      → After d m' result
  twice-After d c m m' result same (inl (less, c', e', v)) =
      inl (omega arith, c', rw (changed_twice c c' index d.clients) at e', rw same at v)
  twice-After d c m m' result same (inr (whole, c', e')) =
      inr (omega arith, c', rw (changed_twice c c' index d.clients) at e')

  handle_whole :
      (d : Daemon) (c : Client)
      → HasReceived w (length w) c
      → handle_request e d index c ≡ start_request e d index request
  unfolding handle_request
  handle_whole d c v = rw (v.size, v.start, take-length (length w) w (omega arith), decodes) refl

  -- One part.
  module _ (d : Daemon) (c : Client) (n : ℕ) (xs rest : List ℕ) (v : HasReceived w n c)
      (next : xs ++ rest ≡ drop n w) (more : 0 < length xs) where
    abbrev grown : Client
    grown = sized (taken_in c xs)

    part_lem :
        (later : List Receipt)
        → input_loop e d index c (gives xs ∷ later) ≡ (
            if is_whole grown
            then handle_request e (put_client d index grown) index grown
            else input_loop e (put_client d index grown) index grown later)
    unfolding input_loop
    part_lem later =
        let fits = in_range w xs rest n k c long short says v next more in
        let cut : take (4104 - c.input_size) xs ≡ xs =
          take-length (4104 - c.input_size) xs (omega (arith, v.size)) in
        let some_bytes : (length xs == 0) ≡ false = ground (arith, more) in
        rw (cut, some_bytes, not_refused w xs rest n k c long short says v next more) refl

    parted :
        (later : List Receipt) (left : List ℕ)
        → rest ≡ brought later ++ left
        → (is_whole grown ≡ false
            → After
                (put_client d index grown)
                (n + length xs + length (brought later))
                (input_loop e (put_client d index grown) index grown later))
        → After d (n + length (xs ++ brought later)) (input_loop e d index c (gives xs ∷ later))
    parted later left e_rest rest_of_it =
        let range = in_range w xs rest n k c long short says v next more in
        let ahead = grown-HasReceived w xs rest n k c long short says v next more in
        let test = grown_whole w xs rest n k c long short says v next more in
        let d2 = put_client d index grown in
        elim (Bool-cases (is_whole grown)) [
          | inl whole ↦
              let end : n + length xs ≡ length w = ground (arith, test, whole) in
              let all : n + length (xs ++ brought later) ≡ length w = omega (
                arith,
                length-append xs (brought later),
                ap (length {A = ℕ}) e_rest,
                length-append (brought later) left,
              ) in
              inr
                (all, grown, part_lem later ∙ (rw whole (handle_whole d2 grown (rw end at ahead))))
          | inr partial ↦
              let sum : n + length xs + length (brought later) ≡ n + length (xs ++ brought later) =
                omega (arith, length-append xs (brought later)) in
              twice-After d grown _ (n + length (xs ++ brought later))
                (input_loop e d index c (gives xs ∷ later)) sum
                (rw (part_lem later, partial) (rest_of_it partial))
        ]

  pub input_loop-After :
      (receipts : List Receipt) (d : Daemon) (c : Client) (n : ℕ) (left : List ℕ)
      → client_at d.clients index ≡ some c
      → HasReceived w n c
      → n < length w
      → IsSteady receipts
      → brought receipts ++ left ≡ drop n w
      → After d (n + length (brought receipts)) (input_loop e d index c receipts)
  unfolding input_loop
  input_loop-After [] d c n left found v less steady next = inl (
    omega arith,
    c,
    ap (λ (cs : List Client). (ok, record d { clients = cs }))
        (sym (changed_same c index d.clients found)),
    rw add-zero v,
  )
  input_loop-After (Receipt.interrupted ∷ later) d c n left found v less steady next =
      input_loop-After later d c n left found v less steady next
  input_loop-After (Receipt.failed ∷ later) d c n left found v less steady next = absurd steady
  input_loop-After (gives xs ∷ later) d c n left found v less (more, steady) next =
      let rest = brought later ++ left in
      let next' : xs ++ rest ≡ drop n w = sym (append_assoc xs (brought later) left) ∙ next in
      let c2 = sized (taken_in c xs) in
      let d2 = put_client d index c2 in
      let range = in_range w xs rest n k c long short says v next' more in
      let test = grown_whole w xs rest n k c long short says v next' more in
      parted d c n xs rest v next' more later left refl λ partial.
        input_loop-After later d2 c2 (n + length xs) left
          (client_at-changed_self (λ (old : Client). c2) index d.clients c found)
          (grown-HasReceived w xs rest n k c long short says v next' more)
          (ground (arith, test, partial, range)) steady (next_part w xs rest n next')

handle_client_input-found :
    (e : Surroundings) (d : Daemon) (index : ℕ) (c : Client) (receipts : List Receipt)
    → client_at d.clients index ≡ some c
    → handle_client_input e d index receipts ≡ input_loop e d index c receipts
unfolding handle_client_input
handle_client_input-found e d index c receipts found = ground (arith, found)

-- The bytes of a request that a client encodes into `out`.
abbrev pub encoded_request : Request → List ℕ → ℕ → List ℕ
encoded_request r out size =
    let encoded = encode_request r out size in take encoded.encoded_length encoded.output

-- A client encodes a request, and `handle_client_input` finds a next part of it, in whatever pieces
-- and with whatever interruptions `read` gives it, when the first `n` bytes have come before. Up to
-- the last byte the call returns DEVMGR_OK and has stored what came, so that it is ready for the
-- next call; and with the last byte it is `start_request` on just the command and the payload that
-- were encoded.
pub request_arrives :
    (e : Surroundings) (d : Daemon) (index : ℕ) (c : Client) (r : Request) (out : List ℕ) (size : ℕ)
    (n : ℕ) (receipts : List Receipt) (left : List ℕ)
    → IsRequest r
    → 8 + r.payload_length ≤ length out
    → client_at d.clients index ≡ some c
    → HasReceived (encoded_request r out size) n c
    → n < length (encoded_request r out size)
    → IsSteady receipts
    → brought receipts ++ left ≡ drop n (encoded_request r out size)
    → let w = encoded_request r out size in
      let m = n + length (brought receipts) in
      let result = handle_client_input e d index receipts in
      (request : Request) × (request.command ≡ r.command)
      × (request.payload_length ≡ r.payload_length)
      × (take request.payload_length request.payload ≡ take r.payload_length r.payload)
      × (((m < length w)
            × (c' : Client) × (result ≡ (ok, put_client d index c'))
            × HasReceived w m c')
          ⊎ ((m ≡ length w)
              × (c' : Client) × (result ≡ start_request e (put_client d index c') index request)))
request_arrives e d index c r out size n receipts left valid room found v less steady next =
    let p = take r.payload_length r.payload in
    let blank : length blank_request.payload ≡ 4096 = length-replicate {A = ℕ} 4096 0 in
    let (long, says, decodes) = encoded_request_lem r blank_request out size valid blank room in
    let used : length p ≡ r.payload_length =
      omega (arith, length-take r.payload_length r.payload, valid.array, valid.fits) in
    let request : Request = record {
      command = r.command;
      payload_length = r.payload_length;
      payload = overwrite blank_request.payload p;
    } in
    (
      request,
      refl,
      refl,
      take-overwrite blank_request.payload p r.payload_length (sym used)
          (omega (arith, used, blank, valid.fits)),
      rw (handle_client_input-found e d index c receipts found) (
          input_loop-After e index (encoded_request r out size) r.payload_length request long
            valid.fits says decodes receipts d c n left found v less steady next),
    )
