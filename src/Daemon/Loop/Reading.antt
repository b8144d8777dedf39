-- ===== src/Daemon/Loop/Reading.antt =====
-- Whatever the device sends and takes is got through, and keeps the clients served.
use linux_device_manager.Base.{
  ◌≡◌, refl, Option, none, some, List, [], ◌∷◌, Bool-cases, inl, inr, take, if◌then◌else◌,
}
use linux_device_manager.Status.{Status, ok, disconnected, is_ok}
use linux_device_manager.Protocol.Frame.{Frame}
use linux_device_manager.Parser.Drain.{Loop}
use linux_device_manager.Parser.Callback.{IsSound, feed-IsSound}
use linux_device_manager.Daemon.State.{Daemon, Surroundings}
use linux_device_manager.Daemon.Calls.{Receipt, gives, Sending}
use linux_device_manager.Daemon.Loop.{link_frame, read_transport, Ready, flushes, reads, on_device}
use linux_device_manager.Daemon.Handling.{on_device_frame-IsCoupled}
use linux_device_manager.Daemon.Served.Serving.{on_device_frame-IsServed}
use linux_device_manager.Daemon.Loop.Managing.{IsManaged}
use linux_device_manager.Daemon.Loop.Outgoing.{flush_transport-IsManaged}

pub link_frame-IsManaged :
    (e : Surroundings) (f : Frame) (d : Daemon) → IsManaged d → IsManaged (link_frame e f d).1
link_frame-IsManaged e f d v = record {
  coupled = on_device_frame-IsCoupled e d f v.coupled;
  served = on_device_frame-IsServed e d f v.served;
}

abbrev pub Sound : Surroundings → Loop Daemon → Type 0
Sound e l = IsSound (link_frame e) IsManaged (link_frame-IsManaged e) l

read_transport-Sound :
    (e : Surroundings) (receipts : List Receipt) (l : Loop Daemon)
    → Sound e l
    → (s : Status) × (l' : Loop Daemon) × (read_transport e l receipts ≡ some (s, l')) × Sound e l'
unfolding read_transport
read_transport-Sound e [] l v = (ok, l, refl, v)
read_transport-Sound e (Receipt.interrupted ∷ later) l v = read_transport-Sound e later l v
read_transport-Sound e (Receipt.failed ∷ later) l v = (disconnected, l, refl, v)
read_transport-Sound e (gives [] ∷ later) l v = (ok, l, refl, v)
read_transport-Sound e (gives (x ∷ xs) ∷ later) l v =
    let (s, l', fed, v') =
      feed-IsSound (link_frame e) IsManaged (link_frame-IsManaged e) l (take 2048 (x ∷ xs)) v in
    elim (Bool-cases (is_ok s)) [
      | inr bad ↦ (s, l', rw (read_transport, fed, bad) refl, v')
      | inl good ↦
          let (s', l'', rest, v'') = read_transport-Sound e later l' v' in
          (s', l'', rw (read_transport, fed, good) rest, v'')
    ]

with-Sound :
    (e : Surroundings) (l : Loop Daemon) (d : Daemon)
    → Sound e l
    → IsManaged d
    → Sound e (record l { context = d })
with-Sound e l d v managed = (
  record { ring = v.0.ring; capacity = v.0.capacity; array = v.0.array; counted = v.0.counted },
  managed,
)

flushes-IsManaged :
    (e : Surroundings) (d : Daemon) (w : Option (List Sending))
    → IsManaged d
    → IsManaged (flushes e d w).1
flushes-IsManaged e d none v = v
flushes-IsManaged e d (some sendings) v = flush_transport-IsManaged e sendings d v

reads-Sound :
    (e : Surroundings) (l : Loop Daemon) (r : Option (List Receipt))
    → Sound e l
    → (s : Status) × (l' : Loop Daemon) × (reads e l r ≡ some (s, l')) × Sound e l'
reads-Sound e l none v = (ok, l, refl, v)
reads-Sound e l (some receipts) v = read_transport-Sound e receipts l v

pub on_device-Sound :
    (e : Surroundings) (l : Loop Daemon) (r : Ready)
    → Sound e l
    → (s : Status) × (l' : Loop Daemon) × (on_device e l r ≡ some (s, l')) × Sound e l'
unfolding on_device
on_device-Sound e l r v =
    let flushed = flushes e l.context r.writable in
    let l1 = record l { context = flushed.1 } in
    let v1 = with-Sound e l flushed.1 v (flushes-IsManaged e l.context r.writable v.1) in
    elim (Bool-cases (is_ok flushed.0)) [
      | inr bad ↦ ((if r.gone then disconnected else flushed.0), l1, rw (on_device, bad) refl, v1)
      | inl good ↦
          let (s, l2, read, v2) = reads-Sound e l1 r.readable v1 in
          ((if r.gone then disconnected else s), l2, rw (on_device, good, read) refl, v2)
    ]
