-- ===== src/Simulator/State.antt =====
-- simulator/device/simulator.h: the simulated device's state, and its initial value.
use linux_device_manager.Base.{
  ℕ, ◌*◌, ◌/◌, ◌^◌, Bool, true, false, Option, none, some, List, ◌∷◌, ltb, ◌==◌, if◌then◌else◌,
  replicate, u32, ℤ, pos, negsuc,
}
use Prim.Native.Nat.{bit_xor}

-- A `double` that is not negative: `mantissa / 2 ^ exponent`.
pub record Rate : Type 0 where
  pub mantissa : ℕ
  pub exponent : ℕ

-- `struct simulator_state` but for `master_fd` and `parser`; `started_at` in nanoseconds, `flash`
-- with the bytes it points at, `none` for a null pointer.
pub record Simulator : Type 0 where
  pub started_ns : ℕ  -- uint64_t
  pub rx_frames : ℕ  -- uint64_t
  pub tx_frames : ℕ  -- uint64_t
  pub errors : ℕ  -- uint64_t
  pub device_id : ℕ  -- uint32_t
  pub temperature_millic : ℤ  -- int32_t
  pub voltage_mv : ℕ  -- uint32_t
  pub telemetry_interval_ms : ℕ  -- uint32_t
  pub telemetry_samples : ℕ  -- uint32_t
  pub next_telemetry_ns : ℕ  -- uint64_t
  pub telemetry_enabled : Bool
  pub flash : Option (List ℕ)
  pub flash_size : ℕ  -- size_t
  pub expected_firmware_crc : ℕ  -- uint32_t
  pub firmware_offset : ℕ  -- uint32_t
  pub firmware_session_id : ℕ  -- uint32_t
  pub firmware_chunk_size : ℕ  -- uint16_t
  pub firmware_version : List ℕ  -- char[32]
  pub pending_version : List ℕ  -- char[32]
  pub bootloader_active : Bool
  pub firmware_upgrading : Bool
  pub firmware_verified : Bool
  pub running : Bool
  pub drop_rate : Rate
  pub corrupt_rate : Rate
  pub response_delay_ms : ℕ  -- uint32_t
  pub disconnect_at_percent : ℤ  -- int
  pub outage_until_ns : ℕ  -- uint64_t
  pub outage_injected : Bool
  pub fail_verify : Bool
  pub random_state : ℕ  -- uint32_t

-- `struct simulator_config`
pub record Config : Type 0 where
  pub drop_rate : Rate
  pub corrupt_rate : Rate
  pub response_delay_ms : ℕ
  pub disconnect_at_percent : ℤ
  pub fail_verify : Bool
  pub random_seed : ℕ

abbrev zero_rate : Rate
zero_rate = record { mantissa = 0; exponent = 0 }

-- The state that `simulator_init` gives without a configuration, started at `started_ns`.
abbrev unconfigured : ℕ → Simulator
unconfigured started_ns = record {
  started_ns = started_ns;
  rx_frames = 0;
  tx_frames = 0;
  errors = 0;
  device_id = 0x5349_4d30;
  temperature_millic = pos 36500;
  voltage_mv = 3300;
  telemetry_interval_ms = 0;
  telemetry_samples = 0;
  next_telemetry_ns = 0;
  telemetry_enabled = false;
  flash = none;
  flash_size = 0;
  expected_firmware_crc = 0;
  firmware_offset = 0;
  firmware_session_id = 0;
  firmware_chunk_size = 0;
  firmware_version = 49 ∷ 46 ∷ 48 ∷ 46 ∷ 48 ∷ 0 ∷ replicate 26 0;
  pending_version = replicate 32 0;
  bootloader_active = false;
  firmware_upgrading = false;
  firmware_verified = false;
  running = true;
  drop_rate = zero_rate;
  corrupt_rate = zero_rate;
  response_delay_ms = 0;
  disconnect_at_percent = negsuc 0;
  outage_until_ns = 0;
  outage_injected = false;
  fail_verify = false;
  random_state = 0xc0ff_ee01;
}

-- `simulator_init`, without the parser; `none` is a null `config`.
unfoldable pub simulator_init : ℕ → Option Config → Simulator
simulator_init started_ns none = unconfigured started_ns
simulator_init started_ns (some config) = record (unconfigured started_ns) {
  drop_rate = config.drop_rate;
  corrupt_rate = config.corrupt_rate;
  response_delay_ms = config.response_delay_ms;
  disconnect_at_percent = config.disconnect_at_percent;
  fail_verify = config.fail_verify;
  random_state = if config.random_seed == 0 then 0xc0ff_ee01 else config.random_seed;
}

-- `simulator_cleanup`
abbrev simulator_cleanup : Simulator → Simulator
simulator_cleanup s = record s { flash = none; flash_size = 0 }

-- `simulator_random`: the next state of the generator, which divided by 2 ^ 32 is the number.
unfoldable pub simulator_random : ℕ → ℕ
simulator_random value =
    let value1 = bit_xor value (u32 (value * 2 ^ 13)) in
    let value2 = bit_xor value1 (value1 / 2 ^ 17) in bit_xor value2 (u32 (value2 * 2 ^ 5))

-- `value / 4294967296.0 < rate`
abbrev pub is_below : ℕ → Rate → Bool
is_below value rate = ltb (value * 2 ^ rate.exponent) (rate.mantissa * 2 ^ 32)
