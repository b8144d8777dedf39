-- ===== src/Session/Request/Trace.antt =====
-- What every sequence of calls keeps true of a session.
use linux_device_manager.Base.{
  ℕ, ◌+◌, ◌-◌, ◌%◌, ◌^◌, ◌≤◌, ◌<◌, ◌≡◌, ◌≢◌, zero, suc, refl, arith, true, List, [], ◌∷◌, ◌++◌, ◌⊎◌,
  inr, some, All, length, get_elem?,
}
use linux_device_manager.Status.{Status}
use linux_device_manager.Span.{Span, at, null}
use linux_device_manager.Protocol.Constants.{max_payload}
use linux_device_manager.Protocol.Frame.{Frame}
use linux_device_manager.Session.State.{Event, Session, Policy, init, cancel_request, transition}
use linux_device_manager.Session.Request.{following, begin_request, accept_response, tick}

pub record IsSession (s : Session) : Type 0 where
  pub next_positive : 0 < s.next_sequence
  pub next_word : s.next_sequence < 2 ^ 32
  pub pending_sequence : s.pending.active ≡ true → 0 < s.pending.frame.sequence
  pub pending_word : s.pending.active ≡ true → s.pending.frame.sequence < 2 ^ 32
  pub pending_short : s.pending.active ≡ true → s.pending.frame.payload_length ≤ max_payload
  pub retries_byte : s.pending.policy.max_retries < 2 ^ 8
  pub retries_left : s.pending.retries_done ≤ s.pending.policy.max_retries

init-IsSession : IsSession init
unfolding init
init-IsSession = ground arith

begin_request-IsSession :
    (s : Session) (type flags : ℕ) (p : Span) (policy : Policy) (now_ns : ℕ) (request : Frame)
    → policy.max_retries < 2 ^ 8
    → IsSession s
    → IsSession (begin_request s type flags p policy now_ns request).session
unfolding begin_request
begin_request-IsSession s type flags (null zero) policy now_ns request b v = ground arith
begin_request-IsSession s type flags (null (suc n)) policy now_ns request b v = ground arith
begin_request-IsSession s type flags (at xs) policy now_ns request b v = ground arith

accept_response-IsSession :
    (s : Session) (f : Frame) → IsSession s → IsSession (accept_response s f).1
unfolding accept_response
accept_response-IsSession s f v = ground arith

transition-IsSession : (s : Session) (e : Event) → IsSession s → IsSession (transition s e).1
unfolding transition
transition-IsSession s e v = ground arith

cancel_request-IsSession : (s : Session) → IsSession s → IsSession (cancel_request s)
unfolding cancel_request
cancel_request-IsSession s v = ground arith

module _ {C : Type 0} (retransmit : Frame → C → Status × C) where
  tick-IsSession :
      (s : Session) (now_ns : ℕ) (c : C) → IsSession s → IsSession (tick retransmit s now_ns c).1
  unfolding tick
  tick-IsSession s now_ns c v = ground arith

-- A call of the session's interface with its arguments.
pub data Call : Type 0 where
  begin : ℕ → ℕ → Span → Policy → ℕ → Frame → Call
  respond : Frame → Call
  tick_at : ℕ → Call
  event : Event → Call
  cancel : Call

-- The retry limit of a policy is a `uint8_t`.
abbrev pub IsCall : Call → Type 0
IsCall (begin type flags p policy now_ns request) = policy.max_retries < 2 ^ 8
IsCall (respond f) = Unit
IsCall (tick_at now_ns) = Unit
IsCall (event e) = Unit
IsCall cancel = Unit

-- The numbers given out by a call of `begin_request`: one if it succeeds.
abbrev given : Status → ℕ → List ℕ
given Status.ok sequence = sequence ∷ []
given _ sequence = []

module _ {C : Type 0} (retransmit : Frame → C → Status × C) where
  -- A call: the sequence numbers that it gives out, the session and the callback's context.
  unfoldable pub perform : Call → Session → C → List ℕ × Session × C
  perform (begin type flags p policy now_ns request) s c =
      let r = begin_request s type flags p policy now_ns request in
      (given r.status r.request.sequence, r.session, c)
  perform (respond f) s c = ([], (accept_response s f).1, c)
  perform (tick_at now_ns) s c = let (status, s', c') = tick retransmit s now_ns c in ([], s', c')
  perform (event e) s c = ([], (transition s e).1, c)
  perform cancel s c = ([], cancel_request s, c)

  unfoldable pub run : List Call → Session → C → List ℕ × Session × C
  run [] s c = ([], s, c)
  run (call ∷ calls) s c =
      let (a, s1, c1) = perform call s c in let (b, s2, c2) = run calls s1 c1 in (a ++ b, s2, c2)

  perform-IsSession :
      (call : Call) (s : Session) (c : C)
      → IsCall call
      → IsSession s
      → IsSession (perform call s c).1
  unfolding perform
  perform-IsSession (begin type flags p policy now_ns request) s c h v =
      begin_request-IsSession s type flags p policy now_ns request h v
  perform-IsSession (respond f) s c h v = accept_response-IsSession s f v
  perform-IsSession (tick_at now_ns) s c h v = tick-IsSession retransmit s now_ns c v
  perform-IsSession (event e) s c h v = transition-IsSession s e v
  perform-IsSession cancel s c h v = cancel_request-IsSession s v

  run_from-IsSession :
      (calls : List Call) (s : Session) (c : C)
      → All IsCall calls
      → IsSession s
      → IsSession (run calls s c).1
  unfolding run
  run_from-IsSession [] s c h v = v
  run_from-IsSession (call ∷ calls) s c h v =
      let (a, s1, c1) = perform call s c in
      run_from-IsSession calls s1 c1 h.1 (perform-IsSession call s c h.0 v)

  -- After any calls on a new session its next sequence number is a nonzero 32-bit value, a
  -- request in flight has such a number and a payload within the limit, and the retries made do
  -- not pass the policy's limit.
  pub run-IsSession :
      (calls : List Call) (c : C) → All IsCall calls → IsSession (run calls init c).1
  run-IsSession calls c h = run_from-IsSession calls init c h init-IsSession

-- The first `n` sequence numbers from `q` on, as `next_sequence` goes.
abbrev pub sequences : ℕ → ℕ → List ℕ
sequences zero q = []
sequences (suc n) q = q ∷ sequences n (following q)

module _ {C : Type 0} (retransmit : Frame → C → Status × C) where
  -- A call gives out the next number and moves on, or gives out none and does not move.
  begin_gives :
      (s : Session) (type flags : ℕ) (p : Span) (policy : Policy) (now_ns : ℕ) (request : Frame)
      → let r = begin_request s type flags p policy now_ns request in
        ((given r.status r.request.sequence ≡ s.next_sequence ∷ [])
          × (r.session.next_sequence ≡ following s.next_sequence))
        ⊎ ((given r.status r.request.sequence ≡ []) × (r.session.next_sequence ≡ s.next_sequence))
  unfolding begin_request
  begin_gives s type flags (null zero) policy now_ns request = ground arith
  begin_gives s type flags (null (suc n)) policy now_ns request = ground arith
  begin_gives s type flags (at xs) policy now_ns request = ground arith

  tick_keeps :
      (s : Session) (now_ns : ℕ) (c : C)
      → (tick retransmit s now_ns c).1.next_sequence ≡ s.next_sequence
  unfolding tick
  tick_keeps s now_ns c = ground arith

  accept_keeps : (s : Session) (f : Frame) → (accept_response s f).1.next_sequence ≡ s.next_sequence
  unfolding accept_response
  accept_keeps s f = ground arith

  transition_keeps : (s : Session) (e : Event) → (transition s e).1.next_sequence ≡ s.next_sequence
  unfolding transition
  transition_keeps s e = ground arith

  perform_gives :
      (call : Call) (s : Session) (c : C)
      → let (a, s', c') = perform retransmit call s c in
        ((a ≡ s.next_sequence ∷ []) × (s'.next_sequence ≡ following s.next_sequence))
        ⊎ ((a ≡ []) × (s'.next_sequence ≡ s.next_sequence))
  unfolding perform cancel_request
  perform_gives (begin type flags p policy now_ns request) s c =
      begin_gives s type flags p policy now_ns request
  perform_gives (respond f) s c = inr (refl, accept_keeps s f)
  perform_gives (tick_at now_ns) s c = inr (refl, tick_keeps s now_ns c)
  perform_gives (event e) s c = inr (refl, transition_keeps s e)
  perform_gives cancel s c = inr (refl, refl)

  run_gives :
      (calls : List Call) (s : Session) (c : C)
      → let given_out = (run retransmit calls s c).0 in
        given_out ≡ sequences (length given_out) s.next_sequence
  unfolding run
  run_gives [] s c = refl
  run_gives (call ∷ calls) s c =
      let (a, s1, c1) = perform retransmit call s c in
      ground (arith, perform_gives call s c, run_gives calls s1 c1)

-- Counting round the nonzero 32-bit values.
get_elem?-sequences :
    (n q i a : ℕ)
    → 0 < q
    → q < 2 ^ 32
    → get_elem? (sequences n q) i ≡ some a
    → a ≡ 1 + (q - 1 + i) % (2 ^ 32 - 1)
get_elem?-sequences zero q i a p w e = cc
get_elem?-sequences (suc n) q zero a p w e = ground arith
get_elem?-sequences (suc n) q (suc i) a p w e =
    omega (
      arith,
      get_elem?-sequences n (following q) i a (ground arith) (ground arith) e,
      following_step,
    )
  where
    following_step : following q ≡ 1 + q % (2 ^ 32 - 1)
    following_step = ground arith

init_next : init.next_sequence ≡ 1
unfolding init
init_next = refl

-- Of the sequence numbers that a new session gives out under any calls, two are different
-- unless 2 ^ 32 - 2 or more requests lie between them.
pub run_sequences_distinct :
    {C : Type 0} (retransmit : Frame → C → Status × C) (calls : List Call) (c : C) (i j a b : ℕ)
    → get_elem? (run retransmit calls init c).0 i ≡ some a
    → get_elem? (run retransmit calls init c).0 j ≡ some b
    → i < j
    → j < i + (2 ^ 32 - 1)
    → a ≢ b
run_sequences_distinct retransmit calls c i j a b ea eb before near =
    let given_out = run_gives retransmit calls init c in
    let n = length (run retransmit calls init c).0 in
    let at_i =
      get_elem?-sequences n init.next_sequence i a (omega (arith, init_next))
        (omega (arith, init_next)) (rw given_out at ea) in
    let at_j =
      get_elem?-sequences n init.next_sequence j b (omega (arith, init_next))
        (omega (arith, init_next)) (rw given_out at eb) in
    omega (arith, at_i, at_j, init_next)
