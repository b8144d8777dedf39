-- ===== src/Daemon/Loop/Wakeups.antt =====
-- Every event of the loop is got through, and keeps the clients served.
use linux_device_manager.Base.{
  ℕ, ◌≡◌, refl, true, false, Option, none, some, List, [], ◌∷◌, if-both, if-cases, Bool-cases, inl,
  inr, if◌then◌else◌,
}
use linux_device_manager.Status.{Status, ok, io, is_ok}
use linux_device_manager.Parser.Stream.{IsLoop}
use linux_device_manager.Daemon.State.{Daemon, Surroundings, close_client}
use linux_device_manager.Daemon.Upgrading.{handle_worker_completion}
use linux_device_manager.Worker.{Worker, begin_job, waits, finish_job}
use linux_device_manager.Daemon.Calls.{Receipt, Sending}
use linux_device_manager.Daemon.Loop.{
  Ready, Wakeup, listener, signal, worker, timer, device, client, thread, Section, begins, finishes,
  Manager, with_daemon, with_job, on_thread, handled, is_open_at, client_reads, client_writes,
  on_client, on_wakeup, on_wakeups,
}
use linux_device_manager.Daemon.Coupling.{on_timer-IsCoupled}
use linux_device_manager.Daemon.Handling.{handle_worker_completion-IsCoupled}
use linux_device_manager.Daemon.Served.Serving.{
  handle_worker_completion-IsServed, on_timer-IsServed,
}
use linux_device_manager.Daemon.Served.Receiving.{handle_client_input-IsServed}
use linux_device_manager.Daemon.Loop.Managing.{
  IsManaged, close_client-IsManaged, handle_client_input-IsCoupled,
}
use linux_device_manager.Daemon.Loop.Outgoing.{
  handle_client_output-IsManaged, accept_clients-IsManaged,
}
use linux_device_manager.Daemon.Loop.Reading.{on_device-Sound}

-- The parser is well, and so is the daemon behind it.
pub record IsRunning (m : Manager) : Type 0 where
  pub parser : IsLoop m.link
  pub daemon : IsManaged m.link.context

client_reads-IsManaged :
    (e : Surroundings) (d : Daemon) (index : ℕ) (r : Option (List Receipt))
    → is_open_at d index ≡ true
    → IsManaged d
    → IsManaged (client_reads e d index r).1
client_reads-IsManaged e d index none opened v = v
client_reads-IsManaged e d index (some receipts) opened v = record {
  coupled = handle_client_input-IsCoupled e index receipts d v.coupled;
  served = handle_client_input-IsServed e index receipts d opened v.served;
}

client_writes-IsManaged :
    (d : Daemon) (index : ℕ) (w : Option (List Sending))
    → IsManaged d
    → IsManaged (client_writes d index w)
client_writes-IsManaged d index none v = v
client_writes-IsManaged d index (some sendings) v =
    handle_client_output-IsManaged d index sendings v

on_client-IsManaged :
    (e : Surroundings) (d : Daemon) (index : ℕ) (r : Ready)
    → IsManaged d
    → IsManaged (on_client e d index r).1
unfolding on_client
on_client-IsManaged e d index r v =
    let (result, d1) = client_reads e d index r.readable in
    let writes = client_writes d1 index r.writable in
    let inner = if is_open_at d1 index then writes else d1 in
    let d2 = if is_ok result then inner else d1 in
    let closed = if r.gone then close_client d2 index else d2 in
    if-cases (λ (x : Status × Daemon). IsManaged x.1) (is_open_at d index) _ (ok, d)
      (λ opened.
        let v1 = client_reads-IsManaged e d index r.readable opened v in
        let v2 : IsManaged d2 =
          if-both IsManaged (is_ok result) inner d1
            (if-both IsManaged (is_open_at d1 index) writes d1
              (client_writes-IsManaged d1 index r.writable v1) v1)
            v1 in
        if-both IsManaged (is_open_at d2 index) closed d2
          (if-both IsManaged r.gone (close_client d2 index) d2 (close_client-IsManaged d2 index v2)
            v2)
          v2)
      (λ shut. v)

-- A handler that keeps the daemon well keeps the parser well too.
pub handled-IsRunning :
    (m : Manager) (x : Status × Daemon)
    → IsRunning m
    → IsManaged x.1
    → (s : Status) × (m' : Manager) × (handled m x ≡ some (s, m')) × IsRunning m'
handled-IsRunning m (s, d) v managed = (
  s,
  with_daemon m d,
  refl,
  record {
    parser = record {
      ring = v.parser.ring;
      capacity = v.parser.capacity;
      array = v.parser.array;
      counted = v.parser.counted;
    };
    daemon = managed;
  },
)

-- The daemon does not see the worker's sections before it takes a result.
with_job-IsRunning :
    (m : Manager) (w : Worker) (job : Option (ℕ × List ℕ))
    → IsRunning m
    → IsRunning (with_job m w job)
with_job-IsRunning m w job v = record {
  parser = record {
    ring = v.parser.ring;
    capacity = v.parser.capacity;
    array = v.parser.array;
    counted = v.parser.counted;
  };
  daemon = record {
    coupled = v.daemon.coupled;
    served = record {
      slots = v.daemon.served.slots;
      present = v.daemon.served.present;
      waits = v.daemon.served.waits;
    };
  };
}

on_thread-IsRunning :
    (m : Manager) (section : Section) → IsRunning m → IsRunning (on_thread m section)
on_thread-IsRunning m begins v = free m.job
  where
    free :
        (job : Option (ℕ × List ℕ))
        → IsRunning (elim job as (λ _. Manager) [
          | some taken ↦ m
          | none ↦
              let (begun, w) = begin_job m.link.context.worker in
              if waits m.link.context.worker then m else with_job m w begun
        ])
    free (some taken) = v
    free none =
        let (begun, w) = begin_job m.link.context.worker in
        if-both IsRunning (waits m.link.context.worker) m (with_job m w begun) v
          (with_job-IsRunning m w begun v)
on_thread-IsRunning m (finishes status image) v = busy m.job
  where
    busy :
        (job : Option (ℕ × List ℕ))
        → IsRunning (elim job as (λ _. Manager) [
          | none ↦ m
          | some taken ↦
              with_job m
                (finish_job m.link.context.worker
                  (record { job_id = taken.0; status = status; image = image }))
                none
        ])
    busy none = v
    busy (some taken) = with_job-IsRunning m _ none v

on_wakeup-IsRunning :
    (e : Surroundings) (m : Manager) (w : Wakeup)
    → IsRunning m
    → (s : Status) × (m' : Manager) × (on_wakeup e m w ≡ some (s, m')) × IsRunning m'
unfolding on_wakeup
on_wakeup-IsRunning e m (listener acceptings) v =
    handled-IsRunning m _ v (accept_clients-IsManaged m.link.context acceptings v.daemon)
on_wakeup-IsRunning e m signal v =
    (ok, record m { running = false }, refl, record { parser = v.parser; daemon = v.daemon })
on_wakeup-IsRunning e m (worker notified) v =
    let d = m.link.context in
    handled-IsRunning m _ v (
      if-both (λ (x : Status × Daemon). IsManaged x.1) notified (handle_worker_completion e d)
        (io, d)
        (record {
          coupled = handle_worker_completion-IsCoupled e d v.daemon.coupled;
          served = handle_worker_completion-IsServed e d v.daemon.served;
        })
        v.daemon)
on_wakeup-IsRunning e m timer v = handled-IsRunning m _ v (record {
  coupled = on_timer-IsCoupled e m.link.context v.daemon.coupled;
  served = on_timer-IsServed e m.link.context v.daemon.served;
})
on_wakeup-IsRunning e m (device ready) v =
    let (s, l, done, v') = on_device-Sound e m.link ready (v.parser, v.daemon) in
    (s, record m { link = l }, rw (on_wakeup, done) refl, record { parser = v'.0; daemon = v'.1 })
on_wakeup-IsRunning e m (client index ready) v =
    handled-IsRunning m _ v (on_client-IsManaged e m.link.context index ready v.daemon)
on_wakeup-IsRunning e m (thread section) v =
    (ok, on_thread m section, refl, on_thread-IsRunning m section v)

pub on_wakeups-IsRunning :
    (batch : List (Surroundings × Wakeup)) (m : Manager)
    → IsRunning m
    → (s : Status) × (m' : Manager) × (on_wakeups m batch ≡ some (s, m')) × IsRunning m'
unfolding on_wakeups
on_wakeups-IsRunning [] m v = (ok, m, refl, v)
on_wakeups-IsRunning ((e, w) ∷ later) m v =
    let (s, m1, woken, v1) = on_wakeup-IsRunning e m w v in
    elim (Bool-cases (is_ok s)) [
      | inr bad ↦ (s, m1, rw (on_wakeups, woken, bad) refl, v1)
      | inl good ↦
          let (s', m2, rest, v2) = on_wakeups-IsRunning later m1 v1 in
          (s', m2, rw (on_wakeups, woken, good) rest, v2)
    ]
