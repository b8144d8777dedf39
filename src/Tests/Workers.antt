-- ===== src/Tests/Workers.antt =====
-- src/worker/worker.c and src/upgrade/firmware.c on a file of three bytes.
use linux_device_manager.Base.{
  ℕ, ◌≡◌, refl, arith, true, Option, some, List, [], ◌∷◌, pos, strlen, replicate, length-replicate,
}
use linux_device_manager.Firmware.{no_image, opened, interrupted, Stat, Opened, firmware_open}
use linux_device_manager.Firmware.Opening.{Maps, Ends, firmware_open-Ends}
use linux_device_manager.Worker.{submit_firmware}
use linux_device_manager.Worker.Steps.{
  System, booted, submits, Reachable, next, with_worker, IsSystem, reachable-IsSystem,
}
use linux_device_manager.Worker.Steps.Server.{Serves, reachable-Serves}

abbrev path : List ℕ
path = 47 ∷ 102 ∷ 0 ∷ []

-- The worker with a job.
abbrev submitted : System
submitted = with_worker booted (submit_firmware booted.worker 7 (some path)).1

submitted-Reachable : Reachable submitted
unfolding strlen
submitted-Reachable = next Reachable.start (submits booted 7 path (omega arith))

reachable-IsSystem_example : IsSystem submitted
reachable-IsSystem_example = reachable-IsSystem submitted submitted-Reachable

reachable-Serves_example : Serves submitted
reachable-Serves_example = reachable-Serves submitted submitted-Reachable

-- A file of zero bytes.
abbrev zeros : ℕ → Option (List ℕ)
zeros n = some (replicate n 0)

zeros-Maps : Maps zeros
zeros-Maps n bytes h = ground (arith, length-replicate {A = ℕ} n 0)

abbrev regular : Stat
regular = record { regular = true; size = pos 3 }

firmware_open-Ends_example :
    (r : Opened) × (firmware_open no_image
        (some path)
        (interrupted ∷ opened 5 ∷ [])
        (some regular)
        zeros
      ≡ some r)
    × Ends 5 r
unfolding strlen
firmware_open-Ends_example =
    firmware_open-Ends no_image path (interrupted ∷ opened 5 ∷ []) (some regular) zeros 5 zeros-Maps
      (omega arith) refl
