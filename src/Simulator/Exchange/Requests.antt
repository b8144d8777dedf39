-- ===== src/Simulator/Exchange/Requests.antt =====
-- The request of a round, and what its answer does, in every state.
use linux_device_manager.Base.{
  ℕ, ◌≤◌, ◌≡◌, ◌⊎◌, inl, inr, refl, sym, ap, ◌∙◌, arith, true, Option, some, List, length,
}
use linux_device_manager.Status.{ok}
use linux_device_manager.Protocol.Frame.{Frame}
use linux_device_manager.Protocol.Frame.Wire.{Message}
use linux_device_manager.Protocol.Frame.Reads.{Reads, message-Reads}
use linux_device_manager.Upgrade.State.{
  UpgradeState, idle, validating, enter_bootloader, begin, transfer, recover, end, verify, activate,
  reboot, complete, error, Upgrade, recoverable,
}
use linux_device_manager.Upgrade.Build.{Built, refused}
use linux_device_manager.Upgrade.Invariant.{IsUpgrade}
use linux_device_manager.Upgrade.Requests.{Requests, due, AsDue, next_chunk, after_request}
use linux_device_manager.Simulator.State.{Simulator}
use linux_device_manager.Firmware.{firmware_max_size}
use linux_device_manager.Simulator.Answer.{answer}
use linux_device_manager.Simulator.Exchange.Linked.{Holds, Stage, Fits}
use linux_device_manager.Simulator.Exchange.Steps.{
  Advances, rank, enter-Advances, end-Advances, verify-Advances, activate-Advances, reboot-Advances,
}
use linux_device_manager.Simulator.Exchange.Sending.{
  begin-Advances, transfer-Advances, recover-Advances,
}

-- A device with room for every image that the simulator takes.
abbrev pub Allocates : (ℕ → Option (List ℕ)) → Type 0
Allocates malloc =
    (n : ℕ)
    → n ≤ firmware_max_size
    → (block : List ℕ) × (malloc n ≡ some block) × (length block ≡ n)

-- What no step of an update changes.
abbrev pub fixed : Upgrade → List ℕ × ℕ × ℕ × List ℕ
fixed u = (u.image_data, u.image_size, u.image_crc, u.version)

pub moved-Fits :
    (u u' : Upgrade) (s s' : Simulator)
    → fixed u' ≡ fixed u
    → s'.fail_verify ≡ s.fail_verify
    → length s'.pending_version ≡ length s.pending_version
    → length s'.firmware_version ≡ length s.firmware_version
    → Fits u s
    → Fits u' s'
moved-Fits u u' s s' e sound pending firmware f =
    let image : u'.image_data ≡ u.image_data = ap (λ (x : List ℕ × ℕ × ℕ × List ℕ). x.0) e in
    let size : u'.image_size ≡ u.image_size = ap (λ (x : List ℕ × ℕ × ℕ × List ℕ). x.1) e in
    let crc : u'.image_crc ≡ u.image_crc = ap (λ (x : List ℕ × ℕ × ℕ × List ℕ). x.2) e in
    let version : u'.version ≡ u.version = ap (λ (x : List ℕ × ℕ × ℕ × List ℕ). x.3) e in
    record {
      image = rw (image, size) f.image;
      small = rw size f.small;
      crc = rw (image, crc) f.crc;
      image_bytes = rw image f.image_bytes;
      named = rw version f.named;
      version_array = rw version f.version_array;
      version_fits = rw version f.version_fits;
      crc_word = rw crc f.crc_word;
      version_bytes = rw version f.version_bytes;
      sound = sound ∙ f.sound;
      pending_array = pending ∙ f.pending_array;
      firmware_array = firmware ∙ f.firmware_array;
    }

-- While the upgrade can recover, a device that is linked to it has the start of the image.
pub recoverable-Holds :
    (u : Upgrade) (s : Simulator) (d : UpgradeState)
    → u.state ≡ d
    → Stage d u s
    → recoverable u.state ≡ true
    → Holds u s
recoverable-Holds u s d h st e = at d st (ap recoverable (sym h) ∙ e)
  where
    at : (d : UpgradeState) → Stage d u s → recoverable d ≡ true → Holds u s
    at transfer st e = st.0
    at recover st e = st
    at end st e = st.0
    at verify st e = st.0
    at activate st e = st.0
    at reboot st e = st.0
    at idle st e = absurd st
    at validating st e = absurd st
    at enter_bootloader st e = ground arith
    at begin st e = ground arith
    at complete st e = ground arith
    at error st e = ground arith

-- A request that is built, and what its answer does.
pub record Delivers (malloc : ℕ → Option (List ℕ)) (now_ns sequence : ℕ) (u : Upgrade)
    (s : Simulator) (b : Built) : Type 0 where
  pub succeeds : b.status ≡ ok
  pub advances :
      Advances b.upgrade s b.frame.type
        (answer malloc now_ns s (record b.frame { sequence = sequence }))
  pub fits : Fits b.upgrade s
  pub same_rank : rank b.upgrade ≡ rank u
  pub held : recoverable b.upgrade.state ≡ true → Holds b.upgrade s

module _ (malloc : ℕ → Option (List ℕ)) (room : Allocates malloc) (now_ns sequence : ℕ)
    (u : Upgrade) (s : Simulator) (v : IsUpgrade u) (f : Fits u s) where
  sends :
      (b : Built) (type : ℕ) (payload : List ℕ) (u1 : Upgrade)
      → Requests b type payload × (b.upgrade ≡ u1)
      → ((r : Frame)
          → r.type ≡ type
          → Reads r payload
          → Advances u1 s type (answer malloc now_ns s r))
      → Fits u1 s
      → rank u1 ≡ rank u
      → (recoverable u1.state ≡ true → Holds u1 s)
      → Delivers malloc now_ns sequence u s b
  sends b type payload u1 (q, e) step fits same held =
      let t : b.frame.type ≡ type = ap (λ (m : Message). m.type) q.says in
      let reads =
        message-Reads b.frame payload q.well_formed (ap (λ (m : Message). m.payload) q.says) in
      let r = record b.frame { sequence = sequence } in
      let taken : Advances u1 s type (answer malloc now_ns s r) = step r t (record {
        size = reads.size;
        word = reads.word;
        second = reads.second;
        third = reads.third;
        rest = reads.rest;
        text = reads.text;
      }) in
      record {
        succeeds = q.succeeds;
        advances = rw e (rw (← t) at taken);
        fits = rw e fits;
        same_rank = rw e same;
        held = rw e held;
      }

  -- In each state a request is sent, or the update is over.
  pub sends_at :
      (d : UpgradeState) (b : Built)
      → u.state ≡ d
      → Stage d u s
      → AsDue d (due d u) u b
      → Delivers malloc now_ns sequence u s b
        ⊎ ((b ≡ refused u) × ((u.state ≡ complete) ⊎ (u.state ≡ error)))
  sends_at idle b h st q = absurd st
  sends_at validating b h st q = absurd st
  sends_at enter_bootloader b h st q = inl (
      sends b _ _ u q (λ r t reads. enter-Advances malloc now_ns u s r h st t) f refl
        (recoverable-Holds u s enter_bootloader h st))
  sends_at begin b h st q =
      let (block, got, whole) = room u.image_size f.small in
      inl (
        sends b _ _ u q
          (λ r.
            begin-Advances malloc now_ns u s r block h st f (v.size_positive (rw h refl))
              (v.chunk_positive (rw h refl)) (v.chunk_fits (rw h refl)) got whole)
          f refl (recoverable-Holds u s begin h st))
  sends_at transfer b h st q =
      let n = next_chunk u in
      let more = v.more_to_send h in
      let some_chunk = v.chunk_positive (rw h refl) in
      inl (
        sends b _ _ (after_request transfer u) q
          (λ r.
            transfer-Advances malloc now_ns (after_request transfer u) s r n h st f.image f.small
              (omega arith) (omega arith) (omega arith) (omega (arith, f.small)))
          (moved-Fits u (after_request transfer u) s s refl refl refl refl f) refl
          (recoverable-Holds u s transfer h st))
  sends_at recover b h st q = inl (
      sends b _ _ u q (λ r. recover-Advances malloc now_ns u s r h st f.small) f refl
        (recoverable-Holds u s recover h st))
  sends_at end b h st q = inl (
      sends b _ _ u q (λ r t reads. end-Advances malloc now_ns u s r reads h st t) f refl
        (recoverable-Holds u s end h st))
  sends_at verify b h st q = inl (
      sends b _ _ u q (λ r t reads. verify-Advances malloc now_ns u s r reads h st f t) f refl
        (recoverable-Holds u s verify h st))
  sends_at activate b h st q = inl (
      sends b _ _ u q (λ r t reads. activate-Advances malloc now_ns u s r reads h st f t) f refl
        (recoverable-Holds u s activate h st))
  sends_at reboot b h st q = inl (
      sends b _ _ u q (λ r t reads. reboot-Advances malloc now_ns u s r h st f.image t) f refl
        (recoverable-Holds u s reboot h st))
  sends_at complete b h st q = inr (q, inl h)
  sends_at error b h st q = inr (q, inr h)
