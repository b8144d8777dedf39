-- ===== src/Worker/Steps.antt =====
-- The worker and its thread as a whole: the steps of both threads, what holds between them, and
-- the one-place server that they amount to.
pub mod Server
use linux_device_manager.Base.{
  ℕ, ◌+◌, ◌≡◌, ◌≢◌, refl, sym, ap, ◌∙◌, arith, Bool, true, false, Option, none, some, List, [], ◌∷◌,
  length, take, strlen, overwrite, length-overwrite, length-replicate, ◌<◌, stored_text,
}
use linux_device_manager.Status.{Status, ok, busy}
use linux_device_manager.Firmware.{Image}
use linux_device_manager.Worker.{
  Worker, Validation, worker_init, path_max, submit_firmware, take_result, begin_job, waits,
  finish_job, request_stop,
}

-- The worker, what its thread has of a job while `devmgr_firmware_open` runs, and whether the
-- thread has ended.
pub record System : Type 0 where
  pub worker : Worker
  pub job : Option (ℕ × List ℕ)
  pub ended : Bool

abbrev pub booted : System
booted = record { worker = worker_init; job = none; ended = false }

abbrev pub with_worker : System → Worker → System
with_worker s w = record s { worker = w }

-- The thread after its first critical section.
abbrev pub after_begin : System → Option (ℕ × List ℕ) × Worker → System
after_begin s (none, w) = record s { worker = w; ended = true }
after_begin s (some job, w) = record s { worker = w; job = some job }

-- The thread after its second critical section, with the job's status and image.
abbrev pub after_finish : System → ℕ → Status → Image → System
after_finish s id status image = record s {
  worker = finish_job s.worker (record { job_id = id; status = status; image = image });
  job = none;
}

-- A critical section of the main thread or of the worker's; a path is a terminated string.
pub data Step : System → System → Type 0 where
  submits :
      (s : System) (id : ℕ) (path : List ℕ)
      → strlen path < length path
      → Step s (with_worker s (submit_firmware s.worker id (some path)).1)
  takes : (s : System) → Step s (with_worker s (take_result s.worker).2)
  begins :
      (s : System)
      → s.ended ≡ false
      → s.job ≡ none
      → waits s.worker ≡ false
      → Step s (after_begin s (begin_job s.worker))
  finishes :
      (s : System) (id : ℕ) (path : List ℕ) (status : Status) (image : Image)
      → s.job ≡ some (id, path)
      → Step s (after_finish s id status image)
  stops : (s : System) → Step s (with_worker s (request_stop s.worker))

pub data Reachable : System → Type 0 where
  start : Reachable booted
  next : {s s' : System} → Reachable s → Step s s' → Reachable s'

-- The path that a worker's job names.
abbrev pub job_text : Worker → List ℕ
job_text w = take (strlen w.job_path + 1) w.job_path

-- What a thread that runs a job has of it.
abbrev pub Runs : Worker → Option (ℕ × List ℕ) → Type 0
Runs w none = w.job_running ≡ false
Runs w (some (id, path)) =
    (w.job_running ≡ true)
    × (w.job_pending ≡ false)
    × (w.result_pending ≡ false)
    × (id ≡ w.job_id)
    × (path ≡ job_text w)

pub record IsSystem (s : System) : Type 0 where
  pub initialized : s.worker.initialized ≡ true
  pub array : length s.worker.job_path ≡ path_max
  pub runs : Runs s.worker s.job
  pub one_result : s.worker.result_pending ≡ true → s.worker.job_pending ≡ false
  pub own_result : s.worker.result_pending ≡ true → s.worker.result.job_id ≡ s.worker.job_id
  pub no_image :
      s.worker.result_pending ≡ false
      → (s.worker.result.image.fd ≡ none) × (s.worker.result.image.image_data ≡ none)

Step-IsSystem : {s s' : System} → Step s s' → IsSystem s → IsSystem s'
unfolding submit_firmware take_result begin_job
Step-IsSystem (submits s id path ended) v =
    ground (arith, length-overwrite s.worker.job_path (take (strlen path + 1) path))
Step-IsSystem (takes s) v = ground arith
Step-IsSystem (begins s running idle ready) v = ground arith
Step-IsSystem (finishes s id path verdict image e) v = ground arith
Step-IsSystem (stops s) v = ground arith

-- Between any two critical sections of the two threads: the worker's thread runs the submitted
-- job or none, a result belongs to the job that was submitted last, a result and a job do not wait
-- at once, and where no result waits the result holds no image that a new one would overwrite.
pub reachable-IsSystem : (s : System) → Reachable s → IsSystem s
reachable-IsSystem s start = record {
  initialized = refl;
  array = length-replicate {A = ℕ} path_max 0;
  runs = refl;
  one_result = λ e. refl;
  own_result = λ e. ground arith;
  no_image = λ e. (refl, refl);
}
reachable-IsSystem s (next r step) = Step-IsSystem step (reachable-IsSystem _ r)
