-- ===== src/Worker/Steps/Server.antt =====
-- The worker as a server with one place, without its flags, its thread and its array for the path.
use linux_device_manager.Base.{
  ℕ, ◌+◌, ◌≡◌, ◌≢◌, ◌<◌, arith, false, Option, none, some, List, ◌||◌, length, take, strlen,
  if◌then◌else◌, stored_text,
}
use linux_device_manager.Status.{Status, ok, busy, not_found}
use linux_device_manager.Firmware.{Image}
use linux_device_manager.Worker.{
  Worker, Validation, path_max, submit_firmware, take_result, begin_job, waits, finish_job,
}
use linux_device_manager.Worker.Steps.{System, Reachable, reachable-IsSystem, job_text}

-- Nothing, a job with its number and its path, or its outcome.
pub data Slot : Type 0 where
  vacant : Slot
  waiting : ℕ → List ℕ → Slot
  validated : Validation → Slot

-- A job is taken by a vacant place only.
unfoldable pub offer : Slot → ℕ → List ℕ → Status × Slot
offer vacant id path = (ok, waiting id path)
offer (waiting id' path') id path = (busy, waiting id' path')
offer (validated v) id path = (busy, validated v)

-- An outcome is handed out once.
unfoldable pub collect : Slot → Status × Option Validation × Slot
collect vacant = (not_found, none, vacant)
collect (waiting id path) = (not_found, none, waiting id path)
collect (validated v) = (ok, some v, vacant)

-- The place that a worker's flags stand for.
abbrev pub slot : Worker → Slot
slot w =
    if w.result_pending
    then validated w.result
    else if w.job_pending || w.job_running
    then waiting w.job_id (job_text w)
    else vacant

-- What each operation does with the place.
pub record Serves (s : System) : Type 0 where
  pub submits :
      (id : ℕ) (path : List ℕ)
      → s.worker.stop ≡ false
      → id ≢ 0
      → 0 < strlen path
      → strlen path < path_max
      → strlen path < length path
      → let (status, w) = submit_firmware s.worker id (some path) in
        (status, slot w) ≡ offer (slot s.worker) id (take (strlen path + 1) path)
  pub takes :
      let (status, v, w) = take_result s.worker in (status, v, slot w) ≡ collect (slot s.worker)
  pub begins : s.job ≡ none → waits s.worker ≡ false → slot (begin_job s.worker).1 ≡ slot s.worker
  pub finishes :
      (id : ℕ) (path : List ℕ) (status : Status) (image : Image)
      → s.job ≡ some (id, path)
      → let v : Validation = record { job_id = id; status = status; image = image } in
        (slot s.worker ≡ waiting id path) × (slot (finish_job s.worker v) ≡ validated v)

-- In every state that the two threads reach, the worker is a server with one place: a submission
-- with a valid job and path, before the worker is stopped, is taken when the place is vacant and
-- refused with DEVMGR_ERROR_BUSY else; a result is handed out once, and DEVMGR_ERROR_NOT_FOUND
-- before; the thread that takes a job leaves the place as it is, and when it ends the job the place
-- changes from just that job, with its number and its path, to its result.
pub reachable-Serves : (s : System) → Reachable s → Serves s
unfolding submit_firmware take_result begin_job offer collect
reachable-Serves s r =
    let v = reachable-IsSystem s r in
    record {
      submits = λ id path running named some_bytes short ended.
          let (size, text) = stored_text s.worker.job_path path ended (omega (arith, v.array)) in
          ground (arith, v.initialized, size, text, v.runs);
      takes = ground (arith, v.initialized);
      begins = λ idle ready. ground (arith, v.runs);
      finishes = λ id path status image e. ground (arith, v.runs, e);
    }
