-- ===== src/Daemon/Served/Keeping.antt =====
-- The handlers that drive an update leave the clients alone.
use linux_device_manager.Base.{
  ℕ, ◌≡◌, ◌≢◌, refl, arith, true, false, not, some, if-both, take, ◌||◌, ◌!=◌,
}
use linux_device_manager.Status.{Status, is_ok}
use linux_device_manager.Span.{at}
use linux_device_manager.Protocol.Frame.{Frame}
use linux_device_manager.Protocol.Frame.Wire.{zero_frame}
use linux_device_manager.Session.State.{Event, transition}
use linux_device_manager.Session.Request.{begin_request, tick, flagged}
use linux_device_manager.Upgrade.State.{active, start, begin_recovery, default_chunk}
use linux_device_manager.Upgrade.Accept
use linux_device_manager.Upgrade.Build.{build_request}
use linux_device_manager.Worker.{Validation}
use linux_device_manager.Daemon.State.{Daemon, Surroundings, queue_frame}
use linux_device_manager.Daemon.Upgrading.{
  queue_upgrade_request, on_upgrade_frame, on_upgrade_timeout, on_validation, retry_policy,
  finished_request, is_complete, is_timeout, not_started, is_validating,
}
use linux_device_manager.Daemon.Served.{IsServed, Waits}

abbrev pub SameClients : Daemon → Daemon → Type 0
SameClients d d' = (d'.clients ≡ d.clients) × (d'.active_client ≡ d.active_client)

-- Where no client waits, nothing is asked of the session and of the upgrade.
abbrev pub NoneWaits : Daemon → Type 0
NoneWaits d = (i : ℕ) → d.active_client ≢ some i

pub kept-IsServed :
    (d d' : Daemon)
    → SameClients d d'
    → Waits d.active_client d'.session d'.upgrade
    → IsServed d
    → IsServed d'
kept-IsServed d d' (clients, waiting) waits v = record {
  slots = rw (clients, waiting) v.slots;
  present = rw (clients, waiting) v.present;
  waits = rw waiting waits;
}

pub idle-IsServed : (d d' : Daemon) → SameClients d d' → NoneWaits d → IsServed d → IsServed d'
idle-IsServed d d' same idle v = kept-IsServed d d' same (λ i h. absurd (idle i h)) v

pub updating-NoneWaits : (d : Daemon) → IsServed d → active d.upgrade ≡ true → NoneWaits d
updating-NoneWaits d v h i waiting = cc (h, (v.waits i waiting).1)

pub queue_frame-SameClients :
    (e : Surroundings) (d : Daemon) (f : Frame)
    → let d' = (queue_frame e d f).1 in
      SameClients d d' × (d'.session ≡ d.session) × (d'.upgrade ≡ d.upgrade)
unfolding queue_frame
queue_frame-SameClients e d f = ground arith

finished_request-SameClients :
    (built begun queued : Status) (d d1 d2 d3 : Daemon)
    → SameClients d d1
    → SameClients d d2
    → SameClients d d3
    → SameClients d (finished_request built begun queued d1 d2 d3).1
finished_request-SameClients built begun queued d d1 d2 d3 k1 k2 k3 = ground (arith, k1, k2, k3)

pub queue_upgrade_request-SameClients :
    (e : Surroundings) (d : Daemon) → SameClients d (queue_upgrade_request e d).1
unfolding queue_upgrade_request
queue_upgrade_request-SameClients e d =
    let built = build_request d.upgrade in
    let begun =
      begin_request d.session built.frame.type built.frame.flags
        (at (take built.frame.payload_length built.frame.payload)) (retry_policy 2000 750 4)
        e.now_ns zero_frame in
    let d1 = record d { upgrade = built.upgrade } in
    let d2 = record d1 { session = begun.session } in
    let queued = queue_frame e d2 begun.request in
    finished_request-SameClients built.status begun.status queued.0 d d1 d2 queued.1 (refl, refl)
      (refl, refl) (queue_frame-SameClients e d2 begun.request).0

pub on_upgrade_frame-SameClients :
    (e : Surroundings) (d : Daemon) (type : ℕ) (f : Frame)
    → SameClients d (on_upgrade_frame e d type f).1
unfolding on_upgrade_frame
on_upgrade_frame-SameClients e d type f =
    let P = λ (x : Status × Daemon). SameClients d x.1 in
    let (result, u) = Accept.accept_response d.upgrade type f in
    if-both P (not (is_ok result)) _ _ (refl, refl)
      (if-both P (is_complete u.state) _ _ (refl, refl)
        (queue_upgrade_request-SameClients e (record d { upgrade = u })))

pub on_upgrade_timeout-SameClients :
    (e : Surroundings) (d : Daemon) → SameClients d (on_upgrade_timeout e d)
unfolding on_upgrade_timeout
on_upgrade_timeout-SameClients e d =
    let (result, u) = begin_recovery d.upgrade in
    let queued = queue_upgrade_request e (record d { upgrade = u }) in
    let same = queue_upgrade_request-SameClients e (record d { upgrade = u }) in
    if-both (SameClients d) (not (is_ok result)) _ _ (refl, refl)
      (if-both (SameClients d) (not (is_ok queued.0)) _ _ same same)

not_started-SameClients :
    (d d' : Daemon) (result : Status) → SameClients d d' → SameClients d (not_started d' result)
not_started-SameClients d d' result same = if-both (SameClients d) _ _ _ same same

pub on_validation-SameClients :
    (e : Surroundings) (d : Daemon) (v : Validation) → SameClients d (on_validation e d v)
unfolding on_validation
on_validation-SameClients e d v =
    let P = SameClients d in
    let (started, u) =
      start d.upgrade v.image.image_data v.image.size v.image.crc32 (some d.pending_upgrade_version)
        default_chunk in
    let d1 = record d { firmware = v.image; upgrade = u } in
    let (entered, s) = transition d.session Event.start_upgrade in
    let d2 = record d1 { session = s } in
    let queued = queue_upgrade_request e d2 in
    let same = queue_upgrade_request-SameClients e d2 in
    if-both P (v.job_id != d.upgrade_operation_id || not (is_validating d.upgrade.state)) _ _
      (refl, refl)
      (if-both P (not (is_ok v.status)) _ _ (refl, refl)
        (if-both P (not (is_ok started)) _ _ (not_started-SameClients d d1 started (refl, refl)) (
          if-both P (not (is_ok entered)) _ _ (not_started-SameClients d d2 entered (refl, refl)) (
            if-both P (not (is_ok queued.0)) _ _ (not_started-SameClients d queued.1 queued.0 same)
              same))))

-- A tick that does not report a timeout leaves the request in flight as it was.
pub tick-SameClients :
    (e : Surroundings) (d : Daemon)
    → let (result, s, d') =
        tick (λ (f : Frame) (x : Daemon). queue_frame e x f) d.session e.now_ns d in
      SameClients d d'
      × (d'.upgrade ≡ d.upgrade)
      × (s.state ≡ d.session.state)
      × (is_timeout result ≡ false → s.pending.active ≡ d.session.pending.active)
unfolding tick
tick-SameClients e d =
    let kept = queue_frame-SameClients e d (flagged d.session).pending.frame in ground (arith, kept)
