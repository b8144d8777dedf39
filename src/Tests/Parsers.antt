-- ===== src/Tests/Parsers.antt =====
-- src/protocol/parser.c on a new parser and a ping.
use linux_device_manager.Base.{
  ℕ, ◌<◌, ◌≡◌, refl, arith, some, List, [], ◌∷◌, ◌++◌, length, replicate, length-replicate, u64,
}
use linux_device_manager.Status.{ok}
use linux_device_manager.Span.{at}
use linux_device_manager.Protocol.Frame.Wire.{Message, zero_frame, length-zero_frame}
use linux_device_manager.Ring
use linux_device_manager.Ring.{Ring}
use linux_device_manager.Ring.Contents.{contents}
use linux_device_manager.Parser.Drain.{Parser, Loop, parser_init, parser_capacity, no_stats, feed}
use linux_device_manager.Parser.Stream.{stream, IsLoop, callback}
use linux_device_manager.Parser.Feed.{feed_twice}
use linux_device_manager.Parser.Deliver.{wires, deliver, feed_delivers}
use linux_device_manager.Tests.Frames.{ping, ping-IsMessage, ping_start, ping_crc}

abbrev new_ring : Ring
new_ring = record {
  storage = replicate parser_capacity 0;
  capacity = parser_capacity;
  read_pos = 0;
  size = 0;
}

abbrev new_parser : Parser
new_parser = record { input = new_ring; stats = no_stats }

init_gives : parser_init ≡ (ok, new_parser)
unfolding parser_init Ring.init
init_gives = refl

-- The callback gathers the sequence numbers.
abbrev gather : Message → List ℕ → List ℕ
gather m c = m.sequence ∷ c

abbrev new_loop : Loop (List ℕ)
new_loop = record { parser = new_parser; frame = zero_frame; context = []; emitted = 0 }

new_loop-IsLoop : IsLoop new_loop
new_loop-IsLoop = ground (arith, length-replicate {A = ℕ} parser_capacity 0, length-zero_frame)

new_loop_empty : (stream new_loop).bytes ≡ []
unfolding contents
new_loop_empty = refl

feed_twice_example :
    (l1 : Loop (List ℕ)) × (l2 : Loop (List ℕ)) × (l3 : Loop (List ℕ)) × (feed
        (callback gather)
        new_loop
        (at ping_start)
      ≡ some (ok, l1))
    × (feed (callback gather) l1 (at (10 ∷ ping_crc)) ≡ some (ok, l2))
    × (feed (callback gather) new_loop (at (ping_start ++ (10 ∷ ping_crc))) ≡ some (ok, l3))
    × (stream l2 ≡ stream l3)
    × (length (stream l1).bytes < 4112)
    × IsLoop l2
feed_twice_example =
    feed_twice gather new_loop ping_start (10 ∷ ping_crc) new_loop-IsLoop
      (rw new_loop_empty (omega arith))

feed_delivers_example :
    (l' : Loop (List ℕ)) × (feed (callback gather) new_loop (at (wires (ping ∷ ping ∷ [])))
      ≡ some (ok, l'))
    × (l'.context ≡ deliver gather (ping ∷ ping ∷ []) [])
    × ((stream l').bytes ≡ [])
    × (l'.parser.stats.frames_decoded ≡ u64 2)
    × (l'.parser.stats.discarded_bytes ≡ 0)
    × (l'.parser.stats.crc_errors ≡ 0)
    × (l'.parser.stats.length_errors ≡ 0)
feed_delivers_example =
    feed_delivers gather new_loop (ping ∷ ping ∷ []) new_loop-IsLoop new_loop_empty (omega arith)
      (ping-IsMessage, (ping-IsMessage, tt))
