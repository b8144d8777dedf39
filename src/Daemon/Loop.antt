-- ===== src/Daemon/Loop.antt =====
-- apps/devmgrd/daemon.c: the event loop. An event names the object whose descriptor is ready, what
-- is ready, and what the system calls of its handler give. Between events the worker's thread
-- (src/worker/worker.c) runs its critical sections.
pub mod Managing
pub mod Outgoing
pub mod Reading
pub mod Wakeups
pub mod Running
pub mod Unheard
pub mod Abandoned
use linux_device_manager.Base.{
  Bool, true, false, Option, none, some, List, [], ◌∷◌, if◌then◌else◌, ℕ, take,
}
use linux_device_manager.Status.{Status, ok, io, disconnected, is_ok}
use linux_device_manager.Span.{at}
use linux_device_manager.Protocol.Frame.{Frame}
use linux_device_manager.Parser.Drain.{Loop, feed}
use linux_device_manager.Firmware.{Image}
use linux_device_manager.Worker.{Worker, Validation, begin_job, waits, finish_job}
use linux_device_manager.Daemon.State.{Daemon, Client, Surroundings, client_at, close_client}
use linux_device_manager.Daemon.Upgrading.{
  on_device_frame, handle_worker_completion, on_timer, start_handshake,
}
use linux_device_manager.Daemon.Calls.{Receipt, gives, Sending, Accepting}
use linux_device_manager.Daemon.Input.{handle_client_input}
use linux_device_manager.Daemon.Output.{handle_client_output, accept_clients, flush_transport}

-- The callback that `read_transport` hands to the parser.
abbrev pub link_frame : Surroundings → Frame → Daemon → Status × Daemon
link_frame e frame d = on_device_frame e d frame

-- `read_transport`, with the loop of `devmgr_transport_read` on EINTR. The parser, the frame that it
-- works on and the daemon are a loop of the parser; `none` where its fuel ends.
unfoldable pub read_transport :
    Surroundings → Loop Daemon → List Receipt → Option (Status × Loop Daemon)
read_transport e l [] = some (ok, l)
read_transport e l (Receipt.interrupted ∷ later) = read_transport e l later
read_transport e l (Receipt.failed ∷ later) = some (disconnected, l)
read_transport e l (gives [] ∷ later) = some (ok, l)
read_transport e l (gives (x ∷ xs) ∷ later) =
    elim (feed (link_frame e) l (at (take 2048 (x ∷ xs)))) [
      | none ↦ none
      | some (result, l') ↦ elim (is_ok result) [
        | false ↦ some (result, l')
        | true ↦ read_transport e l' later
      ]
    ]

-- What is ready at a client or at the device: EPOLLIN, EPOLLOUT, and an error or a hang-up.
pub record Ready : Type 0 where
  pub readable : Option (List Receipt)
  pub writable : Option (List Sending)
  pub gone : Bool

-- A critical section of `worker_main`: the first one, and the second one with what
-- `devmgr_firmware_open` has given for the job.
pub data Section : Type 0 where
  begins : Section
  finishes : Status → Image → Section

-- The descriptor of an event: that of the worker with whether its notification can be read, and that
-- of a client by the client's slot. A section of the worker's thread comes in the same order of
-- steps: a handler enters the mutex of the worker once at most.
pub data Wakeup : Type 0 where
  listener : List Accepting → Wakeup
  signal : Wakeup
  worker : Bool → Wakeup
  timer : Wakeup
  device : Ready → Wakeup
  client : ℕ → Ready → Wakeup
  thread : Section → Wakeup

-- The state of the loop: the parser with the daemon as the context of its callback, `running`, and
-- the `job_id` and `path` that the worker's thread has while `devmgr_firmware_open` runs.
pub record Manager : Type 0 where
  pub link : Loop Daemon
  pub running : Bool
  pub job : Option (ℕ × List ℕ)

abbrev pub with_daemon : Manager → Daemon → Manager
with_daemon m d = record m { link = record (m.link) { context = d } }

abbrev pub handled : Manager → (Status × Daemon) → Option (Status × Manager)
handled m (result, d) = some (result, with_daemon m d)

-- The worker's thread: it waits for a job, or has taken one and finishes it. Nothing stops the
-- thread before the loop has ended.
abbrev pub with_job : Manager → Worker → Option (ℕ × List ℕ) → Manager
with_job m w job = record (with_daemon m (record (m.link.context) { worker = w })) { job = job }

abbrev pub on_thread : Manager → Section → Manager
on_thread m begins = elim m.job [
  | some job ↦ m
  | none ↦
      let (job, w) = begin_job m.link.context.worker in
      if waits m.link.context.worker then m else with_job m w job
]
on_thread m (finishes status image) = elim m.job [
  | none ↦ m
  | some job ↦
      with_job m
        (finish_job m.link.context.worker
          (record { job_id = job.0; status = status; image = image }))
        none
]

-- The branch for the device.
abbrev pub flushes : Surroundings → Daemon → Option (List Sending) → Status × Daemon
flushes e d none = (ok, d)
flushes e d (some sendings) = (flush_transport e d sendings).1

abbrev pub reads :
    Surroundings → Loop Daemon → Option (List Receipt) → Option (Status × Loop Daemon)
reads e l none = some (ok, l)
reads e l (some receipts) = read_transport e l receipts

unfoldable pub on_device : Surroundings → Loop Daemon → Ready → Option (Status × Loop Daemon)
on_device e l ready =
    let (result, d) = flushes e l.context ready.writable in
    let l' = record l { context = d } in
    let over = λ (status : Status). if ready.gone then disconnected else status in
    elim (is_ok result) [
      | false ↦ some (over result, l')
      | true ↦ elim (reads e l' ready.readable) [
        | none ↦ none
        | some (status, l'') ↦ some (over status, l'')
      ]
    ]

abbrev pub is_open_at : Daemon → ℕ → Bool
is_open_at d index = elim (client_at d.clients index) [ none ↦ false | some c ↦ c.is_open ]

-- The branch for a client: nothing where its descriptor has been closed.
abbrev pub client_reads : Surroundings → Daemon → ℕ → Option (List Receipt) → Status × Daemon
client_reads e d index none = (ok, d)
client_reads e d index (some receipts) = handle_client_input e d index receipts

abbrev pub client_writes : Daemon → ℕ → Option (List Sending) → Daemon
client_writes d index none = d
client_writes d index (some sendings) = (handle_client_output d index sendings).1

unfoldable pub on_client : Surroundings → Daemon → ℕ → Ready → Status × Daemon
on_client e d index ready =
    let (result, d1) = client_reads e d index ready.readable in
    let d2 =
      if is_ok result
      then (if is_open_at d1 index then client_writes d1 index ready.writable else d1)
      else d1 in
    let d3 =
      if is_open_at d2 index then (if ready.gone then close_client d2 index else d2) else d2 in
    if is_open_at d index then (result, d3) else (ok, d)

-- The body of the loop over the events of one `epoll_wait`, or a section of the worker's thread.
unfoldable pub on_wakeup : Surroundings → Manager → Wakeup → Option (Status × Manager)
on_wakeup e m (listener acceptings) = handled m (accept_clients m.link.context acceptings)
on_wakeup e m signal = some (ok, record m { running = false })
on_wakeup e m (worker notified) =
    handled m (if notified then handle_worker_completion e m.link.context else (io, m.link.context))
on_wakeup e m timer = handled m (on_timer e m.link.context)
on_wakeup e m (device ready) = elim (on_device e m.link ready) [
  | none ↦ none
  | some (result, l) ↦ some (result, record m { link = l })
]
on_wakeup e m (client index ready) = handled m (on_client e m.link.context index ready)
on_wakeup e m (thread section) = some (ok, on_thread m section)

-- The events of one `epoll_wait`, while they are handled well.
unfoldable pub on_wakeups : Manager → List (Surroundings × Wakeup) → Option (Status × Manager)
on_wakeups m [] = some (ok, m)
on_wakeups m ((e, w) ∷ later) = elim (on_wakeup e m w) [
  | none ↦ none
  | some (result, m') ↦ elim (is_ok result) [
    | false ↦ some (result, m')
    | true ↦ on_wakeups m' later
  ]
]

-- The loop of `devmgr_daemon_run` on what `epoll_wait` gives in turn, up to its end, a signal, or
-- the end of the list.
unfoldable pub run_loop : Manager → List (List (Surroundings × Wakeup)) → Option (Status × Manager)
run_loop m [] = some (ok, m)
run_loop m (batch ∷ later) = elim m.running [
  | false ↦ some (ok, m)
  | true ↦ elim (on_wakeups m batch) [
    | none ↦ none
    | some (result, m') ↦ elim (is_ok result) [
      | false ↦ some (result, m')
      | true ↦ run_loop m' later
    ]
  ]
]

-- `devmgr_daemon_run` from the end of a successful `setup_context` to `cleanup_context`.
unfoldable pub daemon_run :
    Surroundings → Manager → List (List (Surroundings × Wakeup)) → Option (Status × Manager)
daemon_run e m batches =
    let (result, d) = start_handshake e m.link.context in
    let m' = with_daemon m d in
    elim (is_ok result) [ false ↦ some (result, m') | true ↦ run_loop m' batches ]
