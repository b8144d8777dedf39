-- ===== src/Worker.antt =====
-- src/worker/worker.c and include/devmgr/worker.h: the thread that validates firmware files, as
-- the critical sections of its mutex.
pub mod Steps
use linux_device_manager.Base.{
  ℕ, ◌+◌, Bool, true, false, not, Option, none, some, List, [], ◌∷◌, ◌||◌, ◌==◌, leb, ltb,
  if◌then◌else◌, length, take, strlen, overwrite, replicate,
}
use linux_device_manager.Status.{Status, ok, invalid, limit, busy, not_found}
use linux_device_manager.Firmware.{Image, no_image, Closed, firmware_close}

-- `DEVMGR_WORKER_PATH_MAX`
abbrev pub path_max : ℕ
path_max = 4096

-- `struct devmgr_validation_result`
pub record Validation : Type 0 where
  pub job_id : ℕ  -- uint32_t
  pub status : Status
  pub image : Image

-- `struct devmgr_worker` without the thread, the mutex, the condition and `event_fd`; `job_path` is
-- the whole array of 4096 bytes.
pub record Worker : Type 0 where
  pub initialized : Bool
  pub stop : Bool
  pub job_pending : Bool
  pub job_running : Bool
  pub result_pending : Bool
  pub job_id : ℕ  -- uint32_t
  pub job_path : List ℕ
  pub result : Validation

-- `devmgr_worker_init` where the mutex, the condition, the event descriptor and the thread are
-- made.
abbrev pub worker_init : Worker
worker_init = record {
  initialized = true;
  stop = false;
  job_pending = false;
  job_running = false;
  result_pending = false;
  job_id = 0;
  job_path = replicate path_max 0;
  result = record { job_id = 0; status = ok; image = no_image };
}

-- The test under the mutex of a submission.
abbrev pub is_busy : Worker → Bool
is_busy w = w.stop || (w.job_pending || (w.job_running || w.result_pending))

-- `devmgr_worker_submit_firmware` with a worker that is not null; `none` is a null path.
unfoldable pub submit_firmware : Worker → ℕ → Option (List ℕ) → Status × Worker
submit_firmware w job_id none = (invalid, w)
submit_firmware w job_id (some path) =
    if not w.initialized || (job_id == 0)
    then (invalid, w)
    else if (strlen path == 0) || leb path_max (strlen path)
    then (limit, w)
    else if is_busy w
    then (busy, w)
    else (
      ok,
      record w {
        job_path = overwrite w.job_path (take (strlen path + 1) path);
        job_id = job_id;
        job_pending = true;
      },
    )

-- `devmgr_worker_take_result` with pointers that are not null; `none` where `*result` is left
-- alone.
unfoldable pub take_result : Worker → Status × Option Validation × Worker
take_result w =
    if not w.initialized
    then (invalid, none, w)
    else if not w.result_pending
    then (not_found, none, w)
    else (
      ok,
      some w.result,
      record w {
        result = record (w.result) {
          image = record (w.result.image) { fd = none; image_data = none; size = 0 };
        };
        result_pending = false;
      },
    )

-- The first critical section of `worker_main` when it does not wait: `none` when the thread ends,
-- else the job's number and its path.
unfoldable pub begin_job : Worker → Option (ℕ × List ℕ) × Worker
begin_job w = if w.stop then (none, w) else (
  some (w.job_id, take (strlen w.job_path + 1) w.job_path),
  record w { job_pending = false; job_running = true },
)

-- The condition on which it waits.
abbrev pub waits : Worker → Bool
waits w = not (w.stop || w.job_pending)

-- The second critical section, with what `devmgr_firmware_open` has left.
abbrev pub finish_job : Worker → Validation → Worker
finish_job w result = record w { result = result; job_running = false; result_pending = true }

-- `devmgr_worker_destroy` before the thread is joined, and after it.
abbrev pub request_stop : Worker → Worker
request_stop w = if w.initialized then record w { stop = true } else w

unfoldable pub after_join : Worker → Worker × Option Closed
after_join w =
    if w.result_pending
    then (
      record w {
        initialized = false;
        result = record (w.result) { image = (firmware_close w.result.image).image };
      },
      some (firmware_close w.result.image),
    )
    else (record w { initialized = false }, none)
