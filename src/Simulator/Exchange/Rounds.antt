-- ===== src/Simulator/Exchange/Rounds.antt =====
-- A round between the upgrade and the device keeps them linked, whatever becomes of its messages.
use linux_device_manager.Base.{
  ℕ, ◌-◌, ◌≤◌, ◌≡◌, ◌≢◌, ◌⊎◌, inl, inr, refl, ◌∙◌, arith, true, Option, List, if-both,
}
use linux_device_manager.Status.{is_ok}
use linux_device_manager.Protocol.Frame.{Frame}
use linux_device_manager.Upgrade.State.{complete, error, Upgrade, recoverable, begin_recovery}
use linux_device_manager.Upgrade.Build.{build_request, refused}
use linux_device_manager.Upgrade.Accept.{accept_response}
use linux_device_manager.Upgrade.Invariant.{
  IsUpgrade, build_request-IsUpgrade, accept_response-IsUpgrade,
}
use linux_device_manager.Upgrade.Requests.{build_request_lem}
use linux_device_manager.Simulator.State.{Simulator}
use linux_device_manager.Simulator.Exchange.{
  Fate, answered, request_lost, response_lost, Round, timed_out, settle, exchange,
}
use linux_device_manager.Simulator.Exchange.Linked.{Holds, Stage, Fits, Linked}
use linux_device_manager.Simulator.Exchange.Steps.{Advances, rank}
use linux_device_manager.Simulator.Exchange.Requests.{
  Allocates, fixed, moved-Fits, Delivers, sends_at,
}

accept_response-fixed :
    (u : Upgrade) (type : ℕ) (f : Frame) → fixed (accept_response u type f).1 ≡ fixed u
unfolding accept_response
accept_response-fixed u type f = ground arith

build_request-fixed : (u : Upgrade) → fixed (build_request u).upgrade ≡ fixed u
unfolding build_request
build_request-fixed u = ground arith

timed_out-fixed : (u : Upgrade) → fixed (timed_out u) ≡ fixed u
unfolding timed_out begin_recovery
timed_out-fixed u = ground arith

timed_out-IsUpgrade : (u : Upgrade) → IsUpgrade u → IsUpgrade (timed_out u)
unfolding timed_out begin_recovery
timed_out-IsUpgrade u v = ground arith

timed_out-Stage :
    (u : Upgrade) (s : Simulator)
    → (recoverable u.state ≡ true → Holds u s)
    → Stage (timed_out u).state (timed_out u) s
unfolding timed_out begin_recovery
timed_out-Stage u s held = ground arith

lost-Linked :
    (u : Upgrade) (s : Simulator)
    → IsUpgrade u
    → Fits u s
    → (recoverable u.state ≡ true → Holds u s)
    → Linked (timed_out u) s
lost-Linked u s v f held = record {
  valid = timed_out-IsUpgrade u v;
  fits = moved-Fits u (timed_out u) s s (timed_out-fixed u) refl refl refl f;
  stage = timed_out-Stage u s held;
}

-- What both sides are after a message of a given fate.
settled-Linked :
    (fate : Fate) (u : Upgrade) (s : Simulator) (type : ℕ) (a : Simulator × Frame)
    → IsUpgrade u
    → Fits u s
    → (recoverable u.state ≡ true → Holds u s)
    → Advances u s type a
    → let (s', u') = settle fate s a u type in Linked u' s'
settled-Linked answered u s type (s', r) v f held step = record {
  valid = accept_response-IsUpgrade u type r v;
  fits =
      moved-Fits u (accept_response u type r).1 s s' (accept_response-fixed u type r) step.sound
        step.pending_array step.firmware_array f;
  stage = step.stage;
}
settled-Linked request_lost u s type (s', r) v f held step = lost-Linked u s v f held
settled-Linked response_lost u s type (s', r) v f held step =
    lost-Linked u s' v
      (moved-Fits u u s s' refl step.sound step.pending_array step.firmware_array f) step.held

settle-fixed :
    (fate : Fate) (u : Upgrade) (s : Simulator) (type : ℕ) (a : Simulator × Frame)
    → fixed (settle fate s a u type).1 ≡ fixed u
settle-fixed answered u s type (s', r) = accept_response-fixed u type r
settle-fixed request_lost u s type (s', r) = timed_out-fixed u
settle-fixed response_lost u s type (s', r) = timed_out-fixed u

pub exchange-fixed :
    (malloc : ℕ → Option (List ℕ)) (s : Simulator) (u : Upgrade) (round : Round)
    → fixed (exchange malloc (s, u) round).1 ≡ fixed u
unfolding exchange
exchange-fixed malloc s u round =
    if-both (λ (link : Simulator × Upgrade). fixed link.1 ≡ fixed u)
      (is_ok (build_request u).status) _ (s, u)
      (settle-fixed round.fate (build_request u).upgrade s (build_request u).frame.type _
        ∙ build_request-fixed u)
      refl

module _ (malloc : ℕ → Option (List ℕ)) (room : Allocates malloc) (round : Round) (u : Upgrade)
    (s : Simulator) (l : Linked u s) where
  sends_or_ends :
      Delivers malloc round.now_ns round.sequence u s (build_request u)
      ⊎ ((build_request u ≡ refused u) × ((u.state ≡ complete) ⊎ (u.state ≡ error)))
  sends_or_ends =
      sends_at malloc room round.now_ns round.sequence u s l.valid l.fits u.state (build_request u)
        refl l.stage (build_request_lem u l.valid l.fits.image_bytes l.fits.version_bytes)

  -- A round keeps the upgrade and the device linked.
  pub exchange-Linked : let (s', u') = exchange malloc (s, u) round in Linked u' s'
  unfolding exchange
  exchange-Linked = elim sends_or_ends [
    | inl sent ↦
        let b = build_request u in
        let e : is_ok b.status ≡ true = rw sent.succeeds refl in
        rw e (
          settled-Linked round.fate b.upgrade s b.frame.type _ (build_request-IsUpgrade u l.valid)
            sent.fits sent.held sent.advances)
    | inr (over, how) ↦ rw over l
  ]

  -- An answered round brings the upgrade nearer to its end.
  pub exchange-progress :
      round.fate ≡ answered
      → u.state ≢ error
      → let u' = (exchange malloc (s, u) round).1 in (u'.state ≢ error) × (rank u' ≤ rank u - 1)
  unfolding exchange
  exchange-progress fate alive = elim sends_or_ends [
    | inl sent ↦
        let b = build_request u in
        let e : is_ok b.status ≡ true = rw sent.succeeds refl in
        rw (e, fate) (sent.advances.alive, omega (arith, sent.advances.faster, sent.same_rank))
    | inr (over, how) ↦
        let done : rank u ≤ rank u - 1 = elim how [
          | inl c ↦ rw c (omega arith)
          | inr e ↦ absurd (alive e)
        ] in
        rw over (alive, done)
  ]
