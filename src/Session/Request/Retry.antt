-- ===== src/Session/Request/Retry.antt =====
-- How long a request stays in flight: `devmgr_session_tick` against its policy.
use linux_device_manager.Base.{
  ap, ap₂, ◌∙◌, bit_or_twice, ℕ, zero, suc, ◌+◌, ◌^◌, ◌≤◌, ◌<◌, ◌≡◌, ◌⊎◌, arith, true, false, List,
  [], ◌∷◌, length, u64,
}
use linux_device_manager.Status.{Status, ok, timeout}
use linux_device_manager.Protocol.Constants.{flag_retry}
use linux_device_manager.Protocol.Frame.{Frame}
use linux_device_manager.Session.State.{Session}
use linux_device_manager.Session.Request.{tick, flagged}

-- The callback always reports success.
abbrev Sends : {C : Type 0} → (Frame → C → Status × C) → Type 0
Sends {C} retransmit = (f : Frame) (c : C) → (retransmit f c).0 ≡ ok

-- A request is in flight with `left` retries left.
abbrev pub InFlight : ℕ → Session → Type 0
InFlight left s =
    (s.pending.active ≡ true)
    × (s.pending.retries_done + left ≡ s.pending.policy.max_retries)
    × (s.pending.policy.max_retries < 2 ^ 8)

module _ {C : Type 0} (retransmit : Frame → C → Status × C) where
  -- What `n` calls of the callback with a frame make of its context.
  pub resent : ℕ → Frame → C → C
  resent zero f c = c
  resent (suc n) f c = resent n f (retransmit f c).1

  -- Before the deadline, and with nothing in flight, a tick changes nothing.
  tick_idle :
      (s : Session) (now_ns : ℕ) (c : C)
      → (s.pending.active ≡ false) ⊎ (now_ns < s.pending.deadline_ns)
      → tick retransmit s now_ns c ≡ (ok, s, c)
  unfolding tick
  tick_idle s now_ns c h = ground arith

  flagged_twice :
      (s s' : Session)
      → s'.pending.frame ≡ (flagged s).pending.frame
      → (flagged s').pending.frame ≡ (flagged s).pending.frame
  flagged_twice s s' marked = rw marked (
      ap (λ (n : ℕ). record s.pending.frame { flags = n })
        (bit_or_twice s.pending.frame.flags flag_retry))

  tick_retries :
      (s : Session) (now_ns : ℕ) (c : C) (left : ℕ)
      → Sends retransmit
      → InFlight (suc left) s
      → s.pending.deadline_ns ≤ now_ns
      → let (status, s', c') = tick retransmit s now_ns c in
        (status ≡ ok)
        × InFlight left s'
        × (s'.stats.retries ≡ u64 (s.stats.retries + 1))
        × (s'.pending.frame ≡ (flagged s).pending.frame)
        × (c' ≡ (retransmit (flagged s).pending.frame c).1)
  unfolding tick
  tick_retries s now_ns c left sends v due = ground (arith, sends (flagged s).pending.frame c)

  tick_gives_up :
      (s : Session) (now_ns : ℕ) (c : C)
      → InFlight 0 s
      → s.pending.deadline_ns ≤ now_ns
      → let (status, s', c') = tick retransmit s now_ns c in
        (status ≡ timeout)
        × (s'.pending.active ≡ false)
        × (s'.stats.retries ≡ s.stats.retries)
        × (c' ≡ c)
  unfolding tick
  tick_gives_up s now_ns c v due = ground arith

  -- Ticks at the given times, with the status of the last one.
  pub ticks : Session → List ℕ → C → Status × Session × C
  ticks s [] c = (ok, s, c)
  ticks s (now_ns ∷ []) c = tick retransmit s now_ns c
  ticks s (now_ns ∷ later) c =
      let (status, s', c') = tick retransmit s now_ns c in ticks s' later c'

  -- Every tick comes at or after the deadline that holds then.
  abbrev AreDue : Session → List ℕ → C → Type 0
  AreDue s [] c = Unit
  AreDue s (now_ns ∷ later) c =
      (s.pending.deadline_ns ≤ now_ns)
      × AreDue (tick retransmit s now_ns c).1 later (tick retransmit s now_ns c).2

  -- A request that no response completes, with `left` retries left, is sent again at each of the
  -- next `left` ticks that are due: `left` times in all, the callback is given its frame with the
  -- retry flag, and nothing else. The due tick after those sends nothing, reports
  -- DEVMGR_ERROR_TIMEOUT and takes the request out of flight. The callback must succeed.
  pub ticks_time_out :
      (times : List ℕ) (s : Session) (c : C) (left : ℕ)
      → Sends retransmit
      → InFlight left s
      → s.stats.retries < 2 ^ 64
      → AreDue s times c
      → length times ≡ left + 1
      → let (status, s', c') = ticks s times c in
        (status ≡ timeout)
        × (s'.pending.active ≡ false)
        × (s'.stats.retries ≡ u64 (s.stats.retries + left))
        × (c' ≡ resent left (flagged s).pending.frame c)
  unfolding ticks resent
  ticks_time_out [] s c left sends v small due e = absurd (omega arith)
  ticks_time_out (t ∷ []) s c zero sends v small due e =
      let (status, idle, same, unsent) = tick_gives_up s t c v due.0 in
      (status, idle, omega arith, unsent)
  ticks_time_out (t ∷ []) s c (suc left) sends v small due e = absurd (omega arith)
  ticks_time_out (t ∷ u ∷ times) s c zero sends v small due e = absurd (omega arith)
  ticks_time_out (t ∷ u ∷ times) s c (suc left) sends v small due e =
      let (status, flying, count, marked, sent) = tick_retries s t c left sends v due.0 in
      let (status', s1, c1) = tick retransmit s t c in
      let (late, idle, total, all_sent) =
        ticks_time_out (u ∷ times) s1 c1 left sends flying (omega arith) due.1 (omega arith) in
      (late, idle, omega arith, all_sent ∙ ap₂ (resent left) (flagged_twice s s1 marked) sent)
