-- ===== src/Daemon/Loop/Running.antt =====
-- Whatever the event loop of the daemon is given, it goes on, and keeps the clients served.
use linux_device_manager.Base.{◌≡◌, true, false, some, List, ◌∷◌, arith}
use linux_device_manager.Status.{Status, is_ok}
use linux_device_manager.Ring
use linux_device_manager.Session.State
use linux_device_manager.Upgrade.State as Upgrading
use linux_device_manager.Daemon.State.{Daemon, Surroundings}
use linux_device_manager.Daemon.Loop.{Wakeup, Manager, on_wakeups, run_loop}

-- What the loop does with a batch.
module _ (m m' : Manager) (s : Status) (batch : List (Surroundings × Wakeup))
    (later : List (List (Surroundings × Wakeup))) (running : m.running ≡ true)
    (handles : on_wakeups m batch ≡ some (s, m')) where
  pub run_loop_ends : is_ok s ≡ false → run_loop m (batch ∷ later) ≡ some (s, m')
  unfolding run_loop
  run_loop_ends bad = ground (arith, running, handles, bad)

  pub run_loop_goes_on : is_ok s ≡ true → run_loop m (batch ∷ later) ≡ run_loop m' later
  unfolding run_loop
  run_loop_goes_on good = ground (arith, running, handles, good)
