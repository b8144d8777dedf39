-- ===== src/Tests/Outputs.antt =====
-- simulator/device/simulator.c: the frames that leave the simulator.
use linux_device_manager.Base.{
  ℕ, ◌≡◌, ◌≤◌, refl, arith, true, Option, none, some, List, [], ◌∷◌, replicate, length-replicate,
  memcpy, overwrite, take,
}
use linux_device_manager.Status.{Status, ok}
use linux_device_manager.Crc
use linux_device_manager.Crc.{crc32, update}
use linux_device_manager.Protocol.Le.{put_le16, put_le32, get_le16, get_le32}
use linux_device_manager.Protocol.Frame.{Frame, encode, encode_body, decode}
use linux_device_manager.Protocol.Frame.Wire.{message, IsFrame, zero_frame, length-zero_frame}
use linux_device_manager.Simulator.State.{Simulator, simulator_init, simulator_random}
use linux_device_manager.Simulator.Output.{
  Outcome, written, interrupted, blocked, write_loop, write_frame, telemetry_frame,
}
use linux_device_manager.Simulator.Output.Faults.{Writes, write_loop-terminates}
use linux_device_manager.Simulator.Output.Damage.{write_frame_delivers}
use linux_device_manager.Simulator.Output.Telemetry.{
  Within, reported_temperature, reported_voltage, telemetry_frame-bounds,
}

abbrev device : Simulator
device = simulator_init 0 none

telemetry_frame-bounds_example :
    let (s', frame) = telemetry_frame 5 device in
    (reported_temperature frame ≡ s'.temperature_millic)
    × (reported_voltage frame ≡ s'.voltage_mv)
    × Within 36250 36750 s'.temperature_millic
    × (3294 ≤ s'.voltage_mv)
    × (s'.voltage_mv ≤ 3300)
telemetry_frame-bounds_example = telemetry_frame-bounds 5 device

abbrev calls : List Outcome
calls = interrupted ∷ written 2 ∷ blocked true ∷ written 1 ∷ written 1 ∷ []

write_loop-terminates_example :
    (result : Status × List ℕ) × (write_loop (1 ∷ 2 ∷ 3 ∷ []) calls ≡ some result)
    × Writes (1 ∷ 2 ∷ 3 ∷ []) result
write_loop-terminates_example = write_loop-terminates (1 ∷ 2 ∷ 3 ∷ []) calls (omega arith)

-- A response without a payload, and a buffer for it.
abbrev frame : Frame
frame = record zero_frame { type = 1; flags = 2; sequence = 9 }

abbrev stack : List ℕ
stack = replicate 16 0

frame-IsFrame : IsFrame frame
unfolding zero_frame
frame-IsFrame = record {
  array = length-zero_frame;
  fits = omega arith;
  says = record {
    type_byte = omega arith;
    flags_byte = omega arith;
    sequence_word = omega arith;
    payload_fits = omega arith;
    payload_bytes = tt;
  };
}

-- What goes out of a frame in one call of `write`.
abbrev sent : Option (Status × Simulator × List ℕ)
sent = write_frame 0 stack (written 16 ∷ []) device frame

abbrev frame_bytes : List ℕ
frame_bytes = take 16 (encode frame stack 0).output

abbrev after : Simulator
after = record device {
  tx_frames = 1;
  random_state = simulator_random (simulator_random device.random_state);
}

sent_whole : sent ≡ some (ok, after, frame_bytes)
unfolding write_frame write_loop simulator_init encode encode_body put_le16 put_le32 crc32 update
    Crc.update_bytes Crc.finish memcpy overwrite zero_frame simulator_random
sent_whole = refl

frame_bytes_decoded : decode frame_bytes zero_frame ≡ (ok, (decode frame_bytes zero_frame).1)
unfolding decode get_le16 get_le32 encode encode_body put_le16 put_le32 crc32 update
    Crc.update_bytes Crc.finish memcpy overwrite zero_frame
frame_bytes_decoded = refl

write_frame_delivers_example : message (decode frame_bytes zero_frame).1 ≡ message frame
unfolding zero_frame
write_frame_delivers_example =
    write_frame_delivers 0 stack (written 16 ∷ []) device after frame zero_frame
      (decode frame_bytes zero_frame).1 frame_bytes frame-IsFrame
      (omega (arith, length-replicate {A = ℕ} 16 0)) length-zero_frame sent_whole
      frame_bytes_decoded
