-- ===== src/Simulator/Output.antt =====
-- simulator/device/simulator.c: what leaves the simulator: `write_frame`, `emit_telemetry` and
-- `on_frame`.
pub mod Faults
pub mod Telemetry
pub mod Damage
use linux_device_manager.Base.{
  ℕ, zero, suc, ◌+◌, ◌-◌, ◌*◌, ◌/◌, ◌%◌, ◌^◌, Bool, true, false, Option, none, some, List, [], ◌∷◌,
  ◌++◌, ◌&&◌, ltb, if◌then◌else◌, length, take, drop, memcpy, replicate, u32, u64, ℤ, pos,
  u32_of_int,
}
use Prim.Native.Nat.{bit_xor}
use linux_device_manager.Status.{Status, ok, io, is_ok}
use linux_device_manager.Protocol.Constants.{
  header_size, crc_size, max_payload, msg_telemetry, flag_response,
}
use linux_device_manager.Protocol.Le.{put_le32}
use linux_device_manager.Protocol.Frame.{Frame, encode}
use linux_device_manager.Protocol.Frame.Wire.{zero_frame}
use linux_device_manager.Simulator.State.{Simulator, is_below, simulator_random}
use linux_device_manager.Simulator.Answer.{answer}

-- What a call of `write` does: `written n` gives `n`; `blocked` fails with EAGAIN or EWOULDBLOCK,
-- and says whether the `poll` that follows finds room; `failed` fails with another error.
pub data Outcome : Type 0 where
  written : ℕ → Outcome
  interrupted : Outcome
  blocked : Bool → Outcome
  failed : Outcome

-- The bytes that go out, behind those of a call of `write`.
abbrev pub behind : List ℕ → Option (Status × List ℕ) → Option (Status × List ℕ)
behind start none = none
behind start (some (status, rest)) = some (status, start ++ rest)

-- The loop of `write_frame` on the bytes that are left, and the bytes that go out; `none` when the
-- given outcomes end first.
unfoldable pub write_loop : List ℕ → List Outcome → Option (Status × List ℕ)
write_loop [] outcomes = some (ok, [])
write_loop (b ∷ bytes) [] = none
write_loop (b ∷ bytes) (written zero ∷ outcomes) = some (io, [])
write_loop (b ∷ bytes) (written (suc n) ∷ outcomes) =
    behind (b ∷ take n bytes) (write_loop (drop n bytes) outcomes)
write_loop (b ∷ bytes) (interrupted ∷ outcomes) = write_loop (b ∷ bytes) outcomes
write_loop (b ∷ bytes) (blocked true ∷ outcomes) = write_loop (b ∷ bytes) outcomes
write_loop (b ∷ bytes) (blocked false ∷ outcomes) = some (io, [])
write_loop (b ∷ bytes) (failed ∷ outcomes) = some (io, [])

-- `encoded[at] ^= 0x40U`
abbrev pub flip : ℕ → List ℕ → List ℕ
flip at [] = []
flip zero (x ∷ xs) = bit_xor x 0x40 ∷ xs
flip (suc at) (x ∷ xs) = x ∷ flip at xs

-- The simulator after another random number.
abbrev pub drawn : Simulator → Simulator
drawn s = record s { random_state = simulator_random s.random_state }

-- What is handed to `write`: the encoded frame, corrupted or not.
abbrev pub outgoing : Simulator → List ℕ → List ℕ
outgoing s bytes =
    if is_below s.random_state s.corrupt_rate && ltb header_size (length bytes)
    then flip header_size bytes
    else bytes

-- The end of `write_frame`.
abbrev pub finished : Simulator → Option (Status × List ℕ) → Option (Status × Simulator × List ℕ)
finished s none = none
finished s (some (status, out)) =
    some (status, if is_ok status then record s { tx_frames = u64 (s.tx_frames + 1) } else s, out)

-- `write_frame`: its status, the simulator and the bytes that go out; `stack` is what the buffer
-- `encoded` holds before. The delay of the response is left out.
unfoldable pub write_frame :
    ℕ → List ℕ → List Outcome → Simulator → Frame → Option (Status × Simulator × List ℕ)
write_frame now_ns stack outcomes s frame =
    let s1 = drawn s in
    let s2 = drawn s1 in
    let encoded = encode frame stack 0 in
    let bytes = take encoded.encoded_length encoded.output in
    if ltb now_ns s.outage_until_ns
    then some (ok, s, [])
    else if is_below s1.random_state s.drop_rate
    then some (ok, s1, [])
    else if is_ok encoded.status
    then finished s2 (write_loop (outgoing s2 bytes) outcomes)
    else some (encoded.status, s1, [])

-- The simulator and the frame that `emit_telemetry` makes; `wave` is `samples % 21 - 10`.
unfoldable pub telemetry_frame : ℕ → Simulator → Simulator × Frame
telemetry_frame now_ns s =
    let uptime_seconds = u32 (u64 (now_ns + 2 ^ 64 - s.started_ns) / 1_000_000_000) in
    let temperature_millic = pos (36500 + s.telemetry_samples % 21 * 25 - 10 * 25) in
    let voltage_mv = 3300 - s.telemetry_samples % 7 in
    (
      record s {
        temperature_millic = temperature_millic;
        voltage_mv = voltage_mv;
        telemetry_samples = u32 (s.telemetry_samples + 1);
        next_telemetry_ns = u64 (now_ns + s.telemetry_interval_ms * 1_000_000);
      },
      record zero_frame {
        type = msg_telemetry;
        flags = flag_response;
        payload_length = 16;
        payload = memcpy zero_frame.payload 0 (
            put_le32 (u32_of_int temperature_millic)
            ++ (put_le32 voltage_mv ++ (put_le32 uptime_seconds ++ put_le32 s.telemetry_samples)));
      },
    )

-- `emit_telemetry`; `write_ns` is the clock in `write_frame`.
abbrev emit_telemetry :
    ℕ → ℕ → List ℕ → List Outcome → Simulator → Option (Status × Simulator × List ℕ)
emit_telemetry now_ns write_ns stack outcomes s =
    let (s', frame) = telemetry_frame now_ns s in write_frame write_ns stack outcomes s' frame

-- `on_frame`
abbrev on_frame :
    (ℕ → Option (List ℕ))
    → ℕ
    → ℕ
    → List ℕ
    → List Outcome
    → Simulator
    → Frame
    → Option (Status × Simulator × List ℕ)
on_frame malloc now_ns write_ns stack outcomes s request =
    let (s', response) = answer malloc now_ns s request in
    write_frame write_ns stack outcomes s' response
