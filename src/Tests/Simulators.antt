-- ===== src/Tests/Simulators.antt =====
-- simulator/device/simulator.c and the upgrade on an image of three bytes.
use linux_device_manager.Base.{
  ℕ, ◌≡◌, refl, arith, Option, none, some, List, [], ◌∷◌, ◌++◌, replicate, length-replicate, strlen,
  memcpy, overwrite,
}
use linux_device_manager.Status.{ok}
use linux_device_manager.Span.{at}
use linux_device_manager.Crc
use linux_device_manager.Crc.{crc32, update}
use linux_device_manager.Upgrade.State.{recover, complete, Upgrade, init, start, begin_recovery}
use linux_device_manager.Upgrade.Build.{build_request}
use linux_device_manager.Upgrade.Accept.{accept_response}
use linux_device_manager.Protocol.Le.{put_le16, put_le32, get_le16, get_le32}
use linux_device_manager.Protocol.Frame.Wire.{zero_frame}
use linux_device_manager.Upgrade.Invariant.{init-IsUpgrade}
use linux_device_manager.Simulator.State.{Simulator, simulator_init}
use linux_device_manager.Simulator.Answer.{answer, answer_begin, answer_data}
use linux_device_manager.Simulator.Exchange.{
  answered, response_lost, Round, run_rounds, exchange, timed_out,
}
use linux_device_manager.Simulator.Exchange.Requests.{Allocates}
use linux_device_manager.Simulator.Exchange.Delivery.{
  IsReady, IsUpdated, completed-IsUpdated, update_completes,
}

abbrev image : List ℕ
image = 1 ∷ 2 ∷ 3 ∷ []

abbrev text : List ℕ
text = 65 ∷ 0 ∷ []

-- A device of zero bytes.
abbrev zeros : ℕ → Option (List ℕ)
zeros n = some (replicate n 0)

zeros-Allocates : Allocates zeros
zeros-Allocates n h = (replicate n 0, refl, length-replicate {A = ℕ} n 0)

abbrev device : Simulator
device = simulator_init 0 none

abbrev upgrade : Upgrade
upgrade = (start init (some image) 3 (crc32 (at image)) (some text) 2).1

upgrade_starts : start init (some image) 3 (crc32 (at image)) (some text) 2 ≡ (ok, upgrade)
unfolding start strlen
upgrade_starts = refl

device-IsReady : IsReady device
unfolding simulator_init
device-IsReady = record { quiet = refl; sound = refl; pending_array = refl; firmware_array = refl }

abbrev arriving : ℕ → Round
arriving k = record { now_ns = k; sequence = k; fate = answered }

-- The answer to the first chunk is lost.
abbrev before : List Round
before = arriving 1 ∷ arriving 2 ∷ record { now_ns = 3; sequence = 3; fate = response_lost } ∷ []

abbrev rounds : List Round
rounds =
    arriving 4
    ∷ arriving 5
    ∷ arriving 6
    ∷ arriving 7
    ∷ arriving 8
    ∷ arriving 9
    ∷ arriving 10
    ∷ arriving 11
    ∷ arriving 12
    ∷ []

-- The loss leads to a recovery, at the chunk that was lost.
before_recovers : (run_rounds zeros (device, upgrade) before).1.state ≡ recover
unfolding run_rounds exchange timed_out start init build_request answer answer_begin answer_data
    accept_response begin_recovery simulator_init put_le16 put_le32 get_le16 get_le32 memcpy
    overwrite strlen zero_frame
before_recovers = refl

update_completes_example :
    let (s', u') = run_rounds zeros (run_rounds zeros (device, upgrade) before) rounds in
    (u'.state ≡ complete) × IsUpdated image text s'
unfolding strlen
update_completes_example =
    update_completes image text (omega arith) (omega arith) (omega arith) (omega arith) zeros
      zeros-Allocates 2 init upgrade device init-IsUpgrade upgrade_starts device-IsReady before
      rounds (λ h. cc (h, before_recovers))
      (refl, (refl, (refl, (refl, (refl, (refl, (refl, (refl, (refl, tt))))))))) (omega arith)

all_rounds_complete : (run_rounds zeros (device, upgrade) (before ++ rounds)).1.state ≡ complete
unfolding run_rounds exchange timed_out start init build_request answer answer_begin answer_data
    accept_response begin_recovery simulator_init put_le16 put_le32 get_le16 get_le32 memcpy
    overwrite strlen zero_frame crc32 Crc.update_bytes Crc.finish Crc.add_byte update
all_rounds_complete = refl

completed-IsUpdated_example :
    IsUpdated image text (run_rounds zeros (device, upgrade) (before ++ rounds)).0
unfolding strlen
completed-IsUpdated_example =
    completed-IsUpdated image text (omega arith) (omega arith) (omega arith) (omega arith) zeros
      zeros-Allocates 2 init upgrade device init-IsUpgrade upgrade_starts device-IsReady
      (before ++ rounds) all_rounds_complete
