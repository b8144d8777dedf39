-- ===== src/Session/Request/Lifecycle.antt =====
-- One request at a time: what begins it, what completes it, and what a session keeps true.
use Prim.Native.Nat.{bit_and, min}
use linux_device_manager.Base.{
  ℕ, zero, suc, ◌+◌, ◌^◌, ◌≤◌, ◌<◌, ◌≡◌, ◌≢◌, ◌⊎◌, ◌↔◌, arith, true, false, length,
}
use linux_device_manager.Status.{ok}
use linux_device_manager.Span.{Span, at, null}
use linux_device_manager.Protocol.Constants.{
  max_payload, flag_response, msg_ack, msg_nack, msg_error,
}
use linux_device_manager.Protocol.Frame.{Frame}
use linux_device_manager.Session.State.{Session, Policy}
use linux_device_manager.Session.Request.{
  saturating_add, milliseconds_to_ns, begin_request, accept_response, u64_max,
}

-- `saturating_add` is the sum, capped at the largest 64-bit value.
saturating_add_lem : (a b : ℕ) → a < 2 ^ 64 → b < 2 ^ 64 → saturating_add a b ≡ min (a + b) u64_max
unfolding saturating_add
saturating_add_lem a b p q = ground arith

-- A response of the kinds that may complete a request of type `asked`.
abbrev pub Completes : ℕ → Frame → Type 0
Completes asked f =
    ((f.type ≡ msg_ack) ⊎ ((f.type ≡ msg_nack) ⊎ (f.type ≡ msg_error)))
    ⊎ ((f.type ≡ asked) × (bit_and f.flags flag_response ≢ 0))

-- `devmgr_session_accept_response` completes the request in flight exactly when there is one,
-- the sequences agree, and the response is an ACK, NACK or ERROR, or has the request's type and
-- the response flag.
pub accept_response_iff :
    (s : Session) (f : Frame)
    → ((accept_response s f).0 ≡ ok) ↔ (
        (s.pending.active ≡ true)
        × (f.sequence ≡ s.pending.frame.sequence)
        × Completes s.pending.frame.type f)
unfolding accept_response
accept_response_iff s f = ((λ h. ground arith), (λ h. ground arith))

-- What is left of the session when the response completes the request, and when it does not:
-- a response that completes nothing changes counters only.
pub accept_response_effect :
    (s : Session) (f : Frame)
    → let s' = (accept_response s f).1 in
      (((accept_response s f).0 ≡ ok)
        × (s'.pending ≡ record s.pending { active = false })
        × (s'.last_completed_sequence ≡ f.sequence)
        × (s'.next_sequence ≡ s.next_sequence)
        × (s'.state ≡ s.state))
      ⊎ (((accept_response s f).0 ≢ ok)
          × (s'.pending ≡ s.pending)
          × (s'.last_completed_sequence ≡ s.last_completed_sequence)
          × (s'.next_sequence ≡ s.next_sequence)
          × (s'.state ≡ s.state))
unfolding accept_response
accept_response_effect s f = ground arith

-- A payload argument that `devmgr_session_begin_request` takes: a null pointer only with the
-- length 0, and within the limit.
abbrev pub IsPayload : Span → Type 0
IsPayload (null n) = n ≡ 0
IsPayload (at xs) = length xs ≤ max_payload

-- `devmgr_session_begin_request` succeeds exactly when the arguments are valid and no request is
-- in flight; then the request carries the next sequence number and is the one in flight, with its
-- deadline set and no retry made. Otherwise the session stays as it was.
pub begin_request_lem :
    (s : Session) (type flags : ℕ) (p : Span) (policy : Policy) (now_ns : ℕ) (request : Frame)
    → let r = begin_request s type flags p policy now_ns request in
      ((r.status ≡ ok) ↔ (IsPayload p × (policy.timeout_ms ≢ 0) × (s.pending.active ≡ false)))
      × (r.status ≡ ok
          → (r.request.sequence ≡ s.next_sequence)
            × (r.session.pending.frame ≡ r.request)
            × (r.session.pending.active ≡ true)
            × (r.session.pending.retries_done ≡ 0)
            × (r.session.pending.deadline_ns
                ≡ saturating_add now_ns (milliseconds_to_ns policy.timeout_ms)))
      × (r.status ≢ ok → (r.session ≡ s) × (r.request ≡ request))
unfolding begin_request
begin_request_lem s type flags (null zero) policy now_ns request =
    (((λ h. ground arith), (λ h. ground arith)), (λ h. ground arith), (λ h. ground arith))
begin_request_lem s type flags (null (suc n)) policy now_ns request =
    (((λ h. ground arith), (λ h. ground arith)), (λ h. ground arith), (λ h. ground arith))
begin_request_lem s type flags (at xs) policy now_ns request =
    (((λ h. ground arith), (λ h. ground arith)), (λ h. ground arith), (λ h. ground arith))
