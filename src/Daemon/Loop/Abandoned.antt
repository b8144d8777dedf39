-- ===== src/Daemon/Loop/Abandoned.antt =====
-- A client that hangs up while its request is in flight.
use linux_device_manager.Base.{
  ap, ℕ, zero, suc, ◌≤◌, ◌≡◌, refl, ◌∙◌, arith, true, false, none, some, List, [], ◌∷◌, ◌+◌, length,
}
use linux_device_manager.Status.{Status, ok, timeout}
use linux_device_manager.Session.Request.{flagged}
use linux_device_manager.Session.Request.Retry.{InFlight}
use linux_device_manager.Daemon.Calls.{Sending}
use linux_device_manager.Daemon.Output.{flush_transport}
use linux_device_manager.Upgrade.State.{active}
use linux_device_manager.Parser.Drain.{Loop}
use linux_device_manager.Daemon.State.{Daemon, Surroundings, queue_frame, close_client}
use linux_device_manager.Daemon.Upgrading.{on_timer}
use linux_device_manager.Daemon.Loop.Running.{run_loop_goes_on, run_loop_ends}
use linux_device_manager.Daemon.Loop.{
  Ready, Wakeup, timer, client, device, Manager, with_daemon, handled, is_open_at, on_client,
  on_wakeup, on_wakeups, run_loop, on_device,
}
use linux_device_manager.Daemon.Loop.Unheard.{
  Abandoned, Alike-Abandoned, flush_transport-Alike, resends, unheard_timeout,
}

-- EPOLLHUP alone.
abbrev pub hung_up : Ready
hung_up = record { readable = none; writable = none; gone = true }

hung_up_closes :
    (e : Surroundings) (d : Daemon) (index : ℕ)
    → is_open_at d index ≡ true
    → on_client e d index hung_up ≡ (ok, close_client d index)
unfolding on_client
hung_up_closes e d index opened = ground (arith, opened)

closed_kept :
    (d : Daemon) (index : ℕ)
    → d.active_client ≡ some index
    → let d' = close_client d index in
      (d'.session ≡ d.session) × (d'.upgrade ≡ d.upgrade) × (d'.active_client ≡ none)
unfolding close_client
closed_kept d index waits = (refl, refl, ground (arith, waits))

-- One event of the loop after another.
on_wakeups_step :
    (e : Surroundings) (w : Wakeup) (later : List (Surroundings × Wakeup)) (m m' : Manager)
    → on_wakeup e m w ≡ some (ok, m')
    → on_wakeups m ((e, w) ∷ later) ≡ on_wakeups m' later
unfolding on_wakeups
on_wakeups_step e w later m m' woken = ground (arith, woken)

last_wakeup :
    (e : Surroundings) (w : Wakeup) (m m' : Manager) (s : Status)
    → on_wakeup e m w ≡ some (s, m')
    → on_wakeups m ((e, w) ∷ []) ≡ some (s, m')
unfolding on_wakeups
last_wakeup e w m m' s woken = ground (arith, woken)

hang_up :
    (e : Surroundings) (m : Manager) (index : ℕ)
    → is_open_at m.link.context index ≡ true
    → on_wakeup e m (client index hung_up)
      ≡ some (ok, with_daemon m (close_client m.link.context index))
unfolding on_wakeup
hang_up e m index opened = ap (handled m) (hung_up_closes e m.link.context index opened)

expiry :
    (e : Surroundings) (m : Manager) (s : Status)
    → (on_timer e m.link.context).0 ≡ s
    → on_wakeup e m timer ≡ some (s, with_daemon m (on_timer e m.link.context).1)
unfolding on_wakeup
expiry e m s given =
    ap (λ (t : Status). some (t, with_daemon m (on_timer e m.link.context).1)) given

-- EPOLLOUT alone, with what the calls of `write` give.
abbrev pub drains : List Sending → Ready
drains sendings = record { readable = none; writable = some sendings; gone = false }

device_drained :
    (e : Surroundings) (l : Loop Daemon) (sendings : List Sending)
    → let (result, d) = (flush_transport e l.context sendings).1 in
      result ≡ ok → on_device e l (drains sendings) ≡ some (ok, record l { context = d })
unfolding on_device
device_drained e l sendings fine = rw (on_device, fine) refl

drained :
    (e : Surroundings) (m : Manager) (sendings : List Sending)
    → let (result, d) = (flush_transport e m.link.context sendings).1 in
      result ≡ ok → on_wakeup e m (device (drains sendings)) ≡ some (ok, with_daemon m d)
unfolding on_wakeup
drained e m sendings fine = rw (on_wakeup, device_drained e m.link sendings fine) refl

-- The device takes what is sent to it, does not answer, and the timer expires.
abbrev pub round : List Sending → Surroundings → List (Surroundings × Wakeup)
round sendings e = (e, device (drains sendings)) ∷ (e, timer) ∷ []

abbrev pub rounds :
    List (List Sending × Surroundings)
    → List (List (Surroundings × Wakeup))
    → List (List (Surroundings × Wakeup))
rounds [] later = later
rounds ((sendings, e) ∷ more) later = round sendings e ∷ rounds more later

-- In each round the writes to the device succeed and the timer comes at the deadline or after it;
-- where a retry is left, the request can be queued again.
abbrev pub Silent : ℕ → Daemon → List (List Sending × Surroundings) → Type 0
Silent left d [] = Unit
Silent zero d ((sendings, e) ∷ more) =
    let (result, d1) = (flush_transport e d sendings).1 in
    (result ≡ ok) × (d1.session.pending.deadline_ns ≤ e.now_ns)
Silent (suc left) d ((sendings, e) ∷ more) =
    let (result, d1) = (flush_transport e d sendings).1 in
    (result ≡ ok)
    × (d1.session.pending.deadline_ns ≤ e.now_ns)
    × ((queue_frame e d1 (flagged d1.session).pending.frame).0 ≡ ok)
    × Silent left (on_timer e d1).1 more

round_gives :
    (e : Surroundings) (sendings : List Sending) (m : Manager) (s : Status)
    → let (result, d) = (flush_transport e m.link.context sendings).1 in
      result ≡ ok
      → (on_timer e d).0 ≡ s
      → on_wakeups m (round sendings e) ≡ some (s, with_daemon m (on_timer e d).1)
round_gives e sendings m s fine given =
    let d = (flush_transport e m.link.context sendings).1.1 in
    on_wakeups_step e (device (drains sendings)) ((e, timer) ∷ []) m (with_daemon m d)
      (drained e m sendings fine)
    ∙ last_wakeup e timer (with_daemon m d) (with_daemon m (on_timer e d).1) s
        (expiry e (with_daemon m d) s given)

rounds_time_out :
    (left : ℕ) (silence : List (List Sending × Surroundings))
    (later : List (List (Surroundings × Wakeup))) (m : Manager)
    → m.running ≡ true
    → Abandoned left m.link.context
    → Silent left m.link.context silence
    → length silence ≡ left + 1
    → (m' : Manager) × (run_loop m (rounds silence later) ≡ some (timeout, m'))
rounds_time_out left [] later m running v silent e = absurd (omega arith)
rounds_time_out zero ((sendings, e) ∷ (x ∷ more)) later m running v silent h = absurd (omega arith)
rounds_time_out zero ((sendings, e) ∷ []) later m running v (fine, due) h =
    let d = (flush_transport e m.link.context sendings).1.1 in
    let alone =
      Alike-Abandoned zero m.link.context d (flush_transport-Alike e sendings m.link.context) v in
    (
      with_daemon m (on_timer e d).1,
      run_loop_ends m _ timeout (round sendings e) later running
          (round_gives e sendings m timeout fine (unheard_timeout e d alone due)) refl,
    )
rounds_time_out (suc left) ((sendings, e) ∷ more) later m running v (fine, due, sends, silent) h =
    let d = (flush_transport e m.link.context sendings).1.1 in
    let alone =
      Alike-Abandoned (suc left) m.link.context d (flush_transport-Alike e sendings m.link.context)
        v in
    let (good, still) = resends e d left alone due sends in
    let m1 = with_daemon m (on_timer e d).1 in
    let (m', ends) = rounds_time_out left more later m1 running still silent (omega arith) in
    (
      m',
      run_loop_goes_on m m1 ok (round sendings e) (rounds more later) running
            (round_gives e sendings m ok fine good) refl
          ∙ ends,
    )

-- A client hangs up while its request is in flight with `left` retries left, and no update is
-- active. When the only events after that are that the device takes what is sent to it and that the
-- timer comes at the deadline, for the request, for each of its retries, which can all be queued,
-- and once more after the last one, then the daemon ends with DEVMGR_ERROR_TIMEOUT, and handles
-- none of the events that would come later.
pub abandoned_timeout_ends :
    (e : Surroundings) (m : Manager) (index left : ℕ) (silence : List (List Sending × Surroundings))
    (later : List (List (Surroundings × Wakeup)))
    → m.running ≡ true
    → m.link.context.active_client ≡ some index
    → is_open_at m.link.context index ≡ true
    → active m.link.context.upgrade ≡ false
    → InFlight left m.link.context.session
    → Silent left (close_client m.link.context index) silence
    → length silence ≡ left + 1
    → (m' : Manager) × (run_loop m (((e, client index hung_up) ∷ []) ∷ rounds silence later)
        ≡ some (timeout, m'))
abandoned_timeout_ends e m index left silence later running waits opened quiet flight silent h =
    let d1 = close_client m.link.context index in
    let (session, upgrade, unheard) = closed_kept m.link.context index waits in
    let m1 = with_daemon m d1 in
    let alone : Abandoned left d1 = (unheard, rw upgrade quiet, rw session flight) in
    let (m', ends) = rounds_time_out left silence later m1 running alone silent h in
    (
      m',
      run_loop_goes_on m m1 ok ((e, client index hung_up) ∷ []) (rounds silence later) running
            (last_wakeup e (client index hung_up) m m1 ok (hang_up e m index opened)) refl
          ∙ ends,
    )
