-- ===== src/Daemon/Coupling.antt =====
-- The upgrade and the session move together.
use linux_device_manager.Base.{
  ℕ, ◌≡◌, ◌⊎◌, inl, inr, take, refl, ap, ◌∙◌, arith, true, false, not, Option, none, some, List, [],
  if-both, Bool-cases,
}
use linux_device_manager.Status.{Status, ok, timeout, is_ok}
use linux_device_manager.Protocol.Frame.{Frame}
use linux_device_manager.Span.{Span, at}
use linux_device_manager.Protocol.Frame.Wire.{zero_frame}
use linux_device_manager.Session.State.{
  DeviceState, Event, Session, Policy, transition, cancel_request,
}
use linux_device_manager.Session.Request.{begin_request, tick, flagged}
use linux_device_manager.Upgrade.State.{UpgradeState, Upgrade, active, begin_recovery}
use linux_device_manager.Upgrade.Accept
use linux_device_manager.Upgrade.Build.{build_request}
use linux_device_manager.Upgrade.Invariant.{is_running}
use linux_device_manager.Daemon.State.{
  Daemon, Surroundings, queue_frame, Client, respond_to, client_at, queue_client_response,
}
use linux_device_manager.Daemon.Upgrading.{
  queue_upgrade_request, on_upgrade_frame, on_upgrade_timeout, on_timer, retry_policy,
  finished_request, stepped, closed_firmware, is_complete, is_timeout, expired,
}

-- The session is UPGRADING just while an update runs on the device.
abbrev pub Coupled : DeviceState → UpgradeState → Type 0
Coupled s u =
    (is_running u ≡ true → s ≡ DeviceState.upgrading)
    × (s ≡ DeviceState.upgrading → is_running u ≡ true)

abbrev pub IsCoupled : Daemon → Type 0
IsCoupled d = Coupled d.session.state d.upgrade.state

-- A daemon with the same two states.
abbrev pub Keeps : Daemon → Daemon → Type 0
Keeps d d' = (d'.session.state ≡ d.session.state) × (d'.upgrade.state ≡ d.upgrade.state)

pub kept-IsCoupled : (d d' : Daemon) → Keeps d d' → IsCoupled d → IsCoupled d'
kept-IsCoupled d d' (s, u) v = rw (s, u) v

pub begin_request-state :
    (s : Session) (type flags : ℕ) (payload : Span) (policy : Policy) (now : ℕ) (f : Frame)
    → (begin_request s type flags payload policy now f).session.state ≡ s.state
unfolding begin_request
begin_request-state s type flags payload policy now f = ground arith

pub queue_frame-Keeps :
    (e : Surroundings) (d : Daemon) (f : Frame)
    → let d' = (queue_frame e d f).1 in
      (d'.session.state ≡ d.session.state) × (d'.upgrade ≡ d.upgrade)
unfolding queue_frame
queue_frame-Keeps e d f = ground arith

build_request-state : (u : Upgrade) → (build_request u).upgrade.state ≡ u.state
unfolding build_request
build_request-state u = ground arith

tick-state :
    (e : Surroundings) (d : Daemon)
    → let (result, s, d') =
        tick (λ (f : Frame) (x : Daemon). queue_frame e x f) d.session e.now_ns d in
      (s.state ≡ d.session.state) × (d'.upgrade ≡ d.upgrade)
unfolding tick
tick-state e d =
    let kept = queue_frame-Keeps e d (flagged d.session).pending.frame in ground (arith, kept)

finished_request-Keeps :
    (built begun queued : Status) (d d1 d2 d3 : Daemon)
    → Keeps d d1
    → Keeps d d2
    → Keeps d d3
    → Keeps d (finished_request built begun queued d1 d2 d3).1
unfolding cancel_request
finished_request-Keeps built begun queued d d1 d2 d3 k1 k2 k3 = ground (arith, k1, k2, k3)

pub queue_upgrade_request-Keeps :
    (e : Surroundings) (d : Daemon) → Keeps d (queue_upgrade_request e d).1
unfolding queue_upgrade_request
queue_upgrade_request-Keeps e d =
    let built = build_request d.upgrade in
    let same = build_request-state d.upgrade in
    let payload = at (take built.frame.payload_length built.frame.payload) in
    let begun =
      begin_request d.session built.frame.type built.frame.flags payload (retry_policy 2000 750 4)
        e.now_ns zero_frame in
    let kept =
      begin_request-state d.session built.frame.type built.frame.flags payload
        (retry_policy 2000 750 4) e.now_ns zero_frame in
    let d1 = record d { upgrade = built.upgrade } in
    let d2 = record d1 { session = begun.session } in
    let queued = queue_frame e d2 begun.request in
    let (q, q') = queue_frame-Keeps e d2 begun.request in
    finished_request-Keeps built.status begun.status queued.0 d d1 d2 queued.1 (refl, same)
      (kept, same) (q ∙ kept, ap (λ (u : Upgrade). u.state) q' ∙ same)

respond_to-Keeps :
    (e : Surroundings) (d : Daemon) (index command : ℕ) (status : Status) (payload : List ℕ)
    (c : Option Client)
    → Keeps d (respond_to e d index command status payload c).1
respond_to-Keeps e d index command verdict payload none = (refl, refl)
respond_to-Keeps e d index command verdict payload (some c) =
    if-both (λ (x : Status × Daemon). Keeps d x.1) _ _ _ (refl, refl) (refl, refl)

pub queue_client_response-Keeps :
    (e : Surroundings) (d : Daemon) (index command : ℕ) (status : Status) (payload : List ℕ)
    → Keeps d (queue_client_response e d index command status payload).1
unfolding queue_client_response
queue_client_response-Keeps e d index command status payload =
    respond_to-Keeps e d index command status payload (client_at d.clients index)

-- The end of an update, whatever it was: the upgrade stands still, and UPGRADING is left.
pub ended-IsCoupled :
    (s : Session) (u u' : UpgradeState)
    → is_running u' ≡ false
    → Coupled s.state u
    → Coupled (transition s Event.upgrade_done).1.state u'
unfolding transition
ended-IsCoupled s u u' over v = ground arith

-- What a response makes of the upgrade's state.
abbrev Answers : UpgradeState → Status × Upgrade → Type 0
Answers d (result, u) =
    (is_ok result ≡ false → u.state ≡ UpgradeState.error)
    × (is_ok result ≡ true
        → (is_running d ≡ true) × ((u.state ≡ UpgradeState.complete) ⊎ (is_running u.state ≡ true)))

accept_response-Answers :
    (u : Upgrade) (type : ℕ) (f : Frame) → Answers u.state (Accept.accept_response u type f)
unfolding Accept.accept_response
accept_response-Answers u type f = ground arith

over-IsCoupled :
    (d : Daemon) (u : Upgrade) (x : Status)
    → is_running u.state ≡ false
    → IsCoupled d
    → IsCoupled (
        closed_firmware (stepped (record d { upgrade = u; upgrade_result = x }) Event.upgrade_done))
over-IsCoupled d u x stopped v = ended-IsCoupled d.session d.upgrade.state u.state stopped v

pub on_upgrade_frame-IsCoupled :
    (e : Surroundings) (d : Daemon) (type : ℕ) (f : Frame)
    → IsCoupled d
    → IsCoupled (on_upgrade_frame e d type f).1
unfolding on_upgrade_frame
on_upgrade_frame-IsCoupled e d type f v =
    let (result, u) = Accept.accept_response d.upgrade type f in
    let answers = accept_response-Answers d.upgrade type f in
    let d' = record d { upgrade = u } in
    elim (Bool-cases (is_ok result)) [
      | inr bad ↦
          let stopped : is_running u.state ≡ false = rw (answers.0 bad) refl in
          rw bad (over-IsCoupled d u result stopped v)
      | inl good ↦ elim (Bool-cases (is_complete u.state)) [
        | inl done ↦ rw (good, done) (over-IsCoupled d u ok (ground (arith, done)) v)
        | inr more ↦
            let (before, after) = answers.1 good in
            let goes_on : is_running u.state ≡ true = ground (arith, after, more) in
            rw (good, more)
              (kept-IsCoupled d' (queue_upgrade_request e d').1 (queue_upgrade_request-Keeps e d')
                (λ r. v.0 before, λ h. goes_on))
      ]
    ]

recovery_runs :
    (u : Upgrade)
    → is_ok (begin_recovery u).0 ≡ true
    → (is_running u.state ≡ true) × (is_running (begin_recovery u).1.state ≡ true)
unfolding begin_recovery
recovery_runs u h = ground arith

-- An update that is given up.
given_up-IsCoupled :
    (d0 d : Daemon)
    → d.session.state ≡ d0.session.state
    → IsCoupled d0
    → IsCoupled (
        stepped
          (closed_firmware (record d {
            upgrade_result = timeout;
            upgrade = record d.upgrade { state = UpgradeState.error };
          }))
          Event.upgrade_done)
given_up-IsCoupled d0 d same v =
    ended-IsCoupled d.session d0.upgrade.state UpgradeState.error refl (rw same v)

on_upgrade_timeout-IsCoupled :
    (e : Surroundings) (d : Daemon) → IsCoupled d → IsCoupled (on_upgrade_timeout e d)
unfolding on_upgrade_timeout
on_upgrade_timeout-IsCoupled e d v =
    let (result, u) = begin_recovery d.upgrade in
    let d1 = record d { upgrade = u } in
    let queued = queue_upgrade_request e d1 in
    let kept = queue_upgrade_request-Keeps e d1 in
    elim (Bool-cases (is_ok result)) [
      | inr bad ↦ rw bad (given_up-IsCoupled d d1 refl v)
      | inl good ↦
          let (before, after) = recovery_runs d.upgrade good in
          rw good (
            if-both IsCoupled (not (is_ok queued.0)) _ queued.1
              (given_up-IsCoupled d queued.1 kept.0 v)
              (kept-IsCoupled d1 queued.1 kept (λ r. v.0 before, λ h. after)))
    ]

pub on_timer-IsCoupled : (e : Surroundings) (d : Daemon) → IsCoupled d → IsCoupled (on_timer e d).1
unfolding on_timer
on_timer-IsCoupled e d v =
    let (result, s, d1) =
      tick (λ (f : Frame) (x : Daemon). queue_frame e x f) d.session e.now_ns d in
    let (state, upgrade) = tick-state e d in
    let d' = record d1 { session = s } in
    let v' : IsCoupled d' = rw (state, upgrade) v in
    if-both (λ (x : Status × Daemon). IsCoupled x.1) (not (is_timeout result)) (result, d') _ v'
      (if-both (λ (x : Status × Daemon). IsCoupled x.1) (active d'.upgrade)
        (ok, on_upgrade_timeout e d') _ (on_upgrade_timeout-IsCoupled e d' v')
        (clients d' v' result d'.active_client))
  where
    clients :
        (d' : Daemon)
        → IsCoupled d'
        → (result : Status) → (c : Option ℕ) → IsCoupled (expired e d' result c).1
    clients d' v' result none = v'
    clients d' v' result (some index) =
        let waiting = record d' { active_client = none } in
        kept-IsCoupled waiting (queue_client_response e waiting index 0 timeout []).1
          (queue_client_response-Keeps e waiting index 0 timeout []) v'
