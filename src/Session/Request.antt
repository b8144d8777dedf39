-- ===== src/Session/Request.antt =====
-- The request in flight: beginning it, its response, its deadline and its retransmission.
pub mod Lifecycle
pub mod Retry
pub mod Trace
use Prim.Native.Nat.{bit_and, bit_or}
use linux_device_manager.Base.{
  ℕ, ◌+◌, ◌-◌, ◌*◌, ◌^◌, Bool, true, false, not, List, ◌&&◌, ◌||◌, ltb, leb, ◌==◌, ◌!=◌,
  if◌then◌else◌, overwrite, u32, u64, ◌%◌,
}
use linux_device_manager.Status.{Status, ok, invalid, busy, not_found, protocol, timeout, is_ok}
use linux_device_manager.Span.{Span, null, at, span_length}
use linux_device_manager.Protocol.Constants.{
  max_payload, flag_response, flag_retry, msg_ack, msg_nack, msg_error,
}
use linux_device_manager.Protocol.Frame.{Frame}
use linux_device_manager.Protocol.Frame.Wire.{zero_frame}
use linux_device_manager.Session.State.{Session, Pending, Policy, Stats, cancel_request}

-- `UINT64_MAX`
abbrev pub u64_max : ℕ
u64_max = 2 ^ 64 - 1

-- `milliseconds_to_ns`
abbrev pub milliseconds_to_ns : ℕ → ℕ
milliseconds_to_ns milliseconds = u64 (milliseconds * 1_000_000)

-- `saturating_add`
unfoldable pub saturating_add : ℕ → ℕ → ℕ
saturating_add left right = if ltb (u64_max - left) right then u64_max else u64 (left + right)

-- `session->next_sequence++`, with the skip of 0 that follows it.
abbrev pub following : ℕ → ℕ
following sequence = let next = u32 (sequence + 1) in if next == 0 then 1 else next

-- The `memcpy` of the payload, which is skipped for the length 0.
copied : Span → List ℕ → List ℕ
copied (null n) payload = payload
copied (at xs) payload = overwrite payload xs

is_null : Span → Bool
is_null (null n) = true
is_null (at xs) = false

-- What `devmgr_session_begin_request` leaves: its status, the session and `*request`.
pub record Begun : Type 0 where
  pub status : Status
  pub session : Session
  pub request : Frame

-- `devmgr_session_begin_request`; the span is `payload` with `payload_length`.
unfoldable pub begin_request : Session → ℕ → ℕ → Span → Policy → ℕ → Frame → Begun
unfolding copied is_null
begin_request s type flags payload policy now_ns request =
    let n = span_length payload in
    let frame : Frame = record {
      type = type;
      flags = flags;
      sequence = s.next_sequence;
      payload_length = n;
      payload = copied payload zero_frame.payload;
    } in
    let pending : Pending = record {
      frame = frame;
      policy = policy;
      deadline_ns = saturating_add now_ns (milliseconds_to_ns policy.timeout_ms);
      retries_done = 0;
      active = true;
    } in
    let stats : Stats = record s.stats { requests = u64 (s.stats.requests + 1) } in
    if is_null payload && n != 0 || (ltb max_payload n || policy.timeout_ms == 0)
    then record { status = invalid; session = s; request = request }
    else if s.pending.active
    then record { status = busy; session = s; request = request }
    else record {
      status = ok;
      session = record s {
        next_sequence = following s.next_sequence;
        pending = pending;
        stats = stats;
      };
      request = frame;
    }

-- Neither an ACK, nor a NACK, nor an ERROR.
abbrev is_plain : ℕ → Bool
is_plain type = type != msg_ack && (type != msg_nack && type != msg_error)

abbrev count_unexpected : Session → Session
count_unexpected s = record s {
  stats = record s.stats { unexpected_responses = u64 (s.stats.unexpected_responses + 1) };
}

abbrev count_duplicate : Session → Session
count_duplicate s = record s {
  stats = record s.stats { duplicate_responses = u64 (s.stats.duplicate_responses + 1) };
}

abbrev count_mismatch : Session → Session
count_mismatch s = record s {
  stats = record s.stats { sequence_mismatches = u64 (s.stats.sequence_mismatches + 1) };
}

-- `devmgr_session_accept_response`
unfoldable pub accept_response : Session → Frame → Status × Session
accept_response s response =
    if not s.pending.active
    then if response.sequence == s.last_completed_sequence
      then (not_found, count_duplicate s)
      else (not_found, count_unexpected s)
    else if response.sequence != s.pending.frame.sequence
    then (protocol, count_mismatch s)
    else if bit_and response.flags flag_response == 0 && is_plain response.type
    then (protocol, count_unexpected s)
    else if response.type != s.pending.frame.type && is_plain response.type
    then (protocol, count_unexpected s)
    else (
      ok,
      record s {
        last_completed_sequence = response.sequence;
        pending = record s.pending { active = false };
        stats = record s.stats { responses = u64 (s.stats.responses + 1) };
      },
    )

-- The frame in flight with the retry flag set.
abbrev pub flagged : Session → Session
flagged s = record s {
  pending = record s.pending {
    frame = record s.pending.frame { flags = bit_or s.pending.frame.flags flag_retry };
  };
}

-- What follows a successful retransmission.
retried : Session → ℕ → Session
retried s now_ns =
    let interval = milliseconds_to_ns (
      if s.pending.policy.retry_interval_ms == 0
      then s.pending.policy.timeout_ms
      else s.pending.policy.retry_interval_ms) in
    record s {
      pending = record s.pending {
        retries_done = (s.pending.retries_done + 1) % 2 ^ 8;
        deadline_ns = saturating_add now_ns interval;
      };
      stats = record s.stats { retries = u64 (s.stats.retries + 1) };
    }

timed_out : Session → Session
timed_out s = record s {
  pending = record s.pending { active = false };
  stats = record s.stats { timeouts = u64 (s.stats.timeouts + 1) };
}

-- The callback `retransmit` with its context.
module _ {C : Type 0} (retransmit : Frame → C → Status × C) where
  -- `devmgr_session_tick`
  unfoldable pub tick : Session → ℕ → C → Status × Session × C
  unfolding retried timed_out
  tick s now_ns c =
      let (result, c') = retransmit (flagged s).pending.frame c in
      if not s.pending.active || ltb now_ns s.pending.deadline_ns
      then (ok, s, c)
      else if leb s.pending.policy.max_retries s.pending.retries_done
      then (timeout, timed_out s, c)
      else if not (is_ok result)
      then (result, flagged s, c')
      else (ok, retried (flagged s) now_ns, c')
