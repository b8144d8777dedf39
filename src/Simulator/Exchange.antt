-- ===== src/Simulator/Exchange.antt =====
-- The host's upgrade and the simulated device on one link: what apps/devmgrd/daemon.c does with
-- the upgrade when a response or a timeout comes, next to what the simulator does with the
-- request. A request is delivered once at most: the session's retransmissions, and so the device's
-- answers to a repeated request, are not in a round, and a loss stands for a request whose retries
-- are spent.
pub mod Linked
pub mod Steps
pub mod Arriving
pub mod Sending
pub mod Requests
pub mod Rounds
pub mod Delivery
use linux_device_manager.Base.{ℕ, Bool, true, false, Option, List, [], ◌∷◌, if◌then◌else◌}
use linux_device_manager.Status.{is_ok}
use linux_device_manager.Protocol.Frame.{Frame}
use linux_device_manager.Upgrade.State.{error, Upgrade, begin_recovery}
use linux_device_manager.Upgrade.Build.{build_request}
use linux_device_manager.Upgrade.Accept.{accept_response}
use linux_device_manager.Simulator.State.{Simulator}
use linux_device_manager.Simulator.Answer.{answer}

-- What becomes of a request and of its response.
pub data Fate : Type 0 where
  answered request_lost response_lost : Fate

-- A round: the device's clock, the request's sequence number, and its fate.
pub record Round : Type 0 where
  pub now_ns : ℕ
  pub sequence : ℕ
  pub fate : Fate

-- The timer branch of `devmgr_daemon_run` on a request that has timed out, where
-- `queue_upgrade_request` succeeds.
unfoldable pub timed_out : Upgrade → Upgrade
timed_out u =
    let (status, u') = begin_recovery u in if is_ok status then u' else record u' { state = error }

-- What both sides are after a request of the type `type`.
abbrev pub settle : Fate → Simulator → Simulator × Frame → Upgrade → ℕ → Simulator × Upgrade
settle answered s (s', f) u type = (s', (accept_response u type f).1)
settle request_lost s (s', f) u type = (s, timed_out u)
settle response_lost s (s', f) u type = (s', timed_out u)

-- A round of the update: the request that `devmgr_upgrade_build_request` builds, with the sequence
-- number of the session, and its response.
unfoldable pub exchange : (ℕ → Option (List ℕ)) → Simulator × Upgrade → Round → Simulator × Upgrade
exchange malloc (s, u) round =
    let b = build_request u in
    let request = record b.frame { sequence = round.sequence } in
    if is_ok b.status
    then settle round.fate s (answer malloc round.now_ns s request) b.upgrade b.frame.type
    else (s, u)

unfoldable pub run_rounds :
    (ℕ → Option (List ℕ)) → Simulator × Upgrade → List Round → Simulator × Upgrade
run_rounds malloc link [] = link
run_rounds malloc link (round ∷ rounds) = run_rounds malloc (exchange malloc link round) rounds
