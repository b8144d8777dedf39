-- ===== src/Simulator/Output/Telemetry.antt =====
-- The samples that the simulator sends.
use linux_device_manager.Base.{
  ℕ, ◌+◌, ◌-◌, ◌*◌, ◌/◌, ◌%◌, ◌^◌, ◌≤◌, ◌<◌, ◌≡◌, ap, ◌∙◌, arith, List, ◌++◌, length, drop, memcpy,
  overwrite-eq-append, u32, u64, ℤ, pos, negsuc, int_of_u32, u32_of_int, int_of_u32-u32_of_int,
}
use linux_device_manager.Protocol.Le.{put_le32, get_le32, get_le32-put_le32}
use linux_device_manager.Protocol.Frame.{Frame}
use linux_device_manager.Protocol.Frame.Wire.{zero_frame, length-zero_frame}
use linux_device_manager.Simulator.State.{Simulator}
use linux_device_manager.Simulator.Output.{telemetry_frame}

-- The temperature and the voltage that a telemetry frame carries.
abbrev pub reported_temperature : Frame → ℤ
reported_temperature f = int_of_u32 (get_le32 f.payload)

abbrev pub reported_voltage : Frame → ℕ
reported_voltage f = get_le32 (drop 4 f.payload)

abbrev pub Within : ℕ → ℕ → ℤ → Type 0
Within low high (pos n) = (low ≤ n) × (n ≤ high)
Within low high (negsuc n) = ⊥

-- The words at the start of a payload that is filled from zero bytes.
stored_words :
    (a b : ℕ) (tail : List ℕ)
    → a < 2 ^ 32
    → b < 2 ^ 32
    → length tail ≤ 4088
    → let payload = memcpy zero_frame.payload 0 (put_le32 a ++ (put_le32 b ++ tail)) in
      (get_le32 payload ≡ a) × (get_le32 (drop 4 payload) ≡ b)
unfolding memcpy put_le32
stored_words a b tail ha hb few =
    let z = zero_frame.payload in
    let bytes = put_le32 a ++ (put_le32 b ++ tail) in
    rw (overwrite-eq-append z bytes (omega (arith, length-zero_frame))) (
      get_le32-put_le32 a (put_le32 b ++ (tail ++ drop (length bytes) z)) ha,
      get_le32-put_le32 b (tail ++ drop (length bytes) z) hb,
    )

-- Every telemetry frame carries the temperature and the voltage of the simulator's new state: a
-- temperature from 36250 to 36750 and a voltage from 3294 to 3300.
pub telemetry_frame-bounds :
    (now_ns : ℕ) (s : Simulator)
    → let (s', frame) = telemetry_frame now_ns s in
      (reported_temperature frame ≡ s'.temperature_millic)
      × (reported_voltage frame ≡ s'.voltage_mv)
      × Within 36250 36750 s'.temperature_millic
      × (3294 ≤ s'.voltage_mv)
      × (s'.voltage_mv ≤ 3300)
unfolding telemetry_frame memcpy put_le32
telemetry_frame-bounds now_ns s =
    let t = 36500 + s.telemetry_samples % 21 * 25 - 10 * 25 in
    let v = 3300 - s.telemetry_samples % 7 in
    let uptime = u32 (u64 (now_ns + 2 ^ 64 - s.started_ns) / 1_000_000_000) in
    let low : 36250 ≤ t = omega arith in
    let high : t ≤ 36750 = omega arith in
    let (temperature, voltage) =
      stored_words (u32_of_int (pos t)) v (put_le32 uptime ++ put_le32 s.telemetry_samples)
        (omega arith) (omega arith) (omega arith) in
    (
      ap int_of_u32 temperature ∙ int_of_u32-u32_of_int (pos t) (omega arith),
      voltage,
      (low, high),
      omega arith,
      omega arith,
    )
