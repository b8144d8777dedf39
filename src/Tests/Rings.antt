-- ===== src/Tests/Rings.antt =====
-- src/common/ring_buffer.c on a ring whose bytes go round the end of the array.
use linux_device_manager.Base.{◌≡◌, refl, arith, [], ◌∷◌, ◌++◌, take, drop}
use linux_device_manager.Span.{at}
use linux_device_manager.Ring.{Ring, write, peek, discard, read}
use linux_device_manager.Ring.Contents.{IsRing, contents}
use linux_device_manager.Ring.Write.{write_lem}
use linux_device_manager.Ring.Peek.{peek_lem}
use linux_device_manager.Ring.Discard.{discard_lem, read_lem}

-- 8, then 9
abbrev wrapped : Ring
wrapped = record { storage = 9 ∷ 7 ∷ 8 ∷ []; capacity = 3; read_pos = 2; size = 2 }

wrapped-IsRing : IsRing wrapped
wrapped-IsRing = omega arith

contents-wrapped : contents wrapped ≡ 8 ∷ 9 ∷ []
unfolding contents
contents-wrapped = refl

write_lem_example :
    ((write wrapped (at (4 ∷ 5 ∷ []))).0 ≡ 1)
    × (contents (write wrapped (at (4 ∷ 5 ∷ []))).1 ≡ contents wrapped ++ (4 ∷ []))
    × IsRing (write wrapped (at (4 ∷ 5 ∷ []))).1
    × ((write wrapped (at (4 ∷ 5 ∷ []))).1.capacity ≡ 3)
write_lem_example = write_lem wrapped (4 ∷ 5 ∷ []) wrapped-IsRing

peek_lem_example : peek wrapped 1 5 ≡ (1, take 5 (drop 1 (contents wrapped)))
peek_lem_example = peek_lem wrapped 1 5 wrapped-IsRing

discard_lem_example :
    ((discard wrapped 1).0 ≡ 1)
    × (contents (discard wrapped 1).1 ≡ drop 1 (contents wrapped))
    × IsRing (discard wrapped 1).1
    × ((discard wrapped 1).1.capacity ≡ 3)
discard_lem_example = discard_lem wrapped 1 wrapped-IsRing

read_lem_example :
    ((read wrapped 5).0 ≡ 2)
    × ((read wrapped 5).1 ≡ take 5 (contents wrapped))
    × (contents (read wrapped 5).2 ≡ drop 5 (contents wrapped))
    × IsRing (read wrapped 5).2
read_lem_example = read_lem wrapped 5 wrapped-IsRing
