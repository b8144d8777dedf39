-- ===== src/Simulator/Exchange/Delivery.antt =====
-- An update from its start to its end: the device has the image that the host was given.
use linux_device_manager.Base.{
  ℕ, ◌+◌, ◌-◌, ◌≤◌, ◌<◌, ◌≡◌, ◌≢◌, refl, ap, ◌∙◌, arith, false, Option, some, List, [], ◌∷◌, All,
  length, take, replicate, overwrite, strlen, length-take, length-overwrite, length-replicate,
  strlen-stored, take-overwrite,
}
use linux_device_manager.Status.{ok}
use linux_device_manager.Span.{at, AreBytes, take-AreBytes}
use linux_device_manager.Crc.{crc32}
use linux_device_manager.Crc.Detect.{crc32-lt}
use linux_device_manager.Upgrade.State.{
  UpgradeState, enter_bootloader, complete, error, Upgrade, init, start, version_max,
}
use linux_device_manager.Upgrade.Invariant.{IsUpgrade, start-IsUpgrade-some}
use linux_device_manager.Simulator.State.{Simulator}
use linux_device_manager.Firmware.{firmware_max_size}
use linux_device_manager.Simulator.Exchange.{answered, Round, exchange, run_rounds}
use linux_device_manager.Simulator.Exchange.Linked.{Stage, Linked}
use linux_device_manager.Simulator.Exchange.Steps.{rank, rank_at}
use linux_device_manager.Simulator.Exchange.Requests.{Allocates, fixed}
use linux_device_manager.Simulator.Exchange.Rounds.{
  exchange-Linked, exchange-progress, exchange-fixed,
}

-- A device without an update under way, which does not refuse to verify.
pub record IsReady (s : Simulator) : Type 0 where
  pub quiet : s.firmware_upgrading ≡ false
  pub sound : s.fail_verify ≡ false
  pub pending_array : length s.pending_version ≡ 32
  pub firmware_array : length s.firmware_version ≡ 32

-- The device's firmware is the image, and its version is the one given.
abbrev pub IsUpdated : List ℕ → List ℕ → Simulator → Type 0
IsUpdated image version s =
    (s.flash ≡ some image)
    × (take (strlen version + 1) s.firmware_version ≡ take (strlen version + 1) version)

module _ (malloc : ℕ → Option (List ℕ)) (room : Allocates malloc) where
  run-Linked :
      (rounds : List Round) (s : Simulator) (u : Upgrade)
      → Linked u s
      → let (s', u') = run_rounds malloc (s, u) rounds in Linked u' s' × (fixed u' ≡ fixed u)
  unfolding run_rounds
  run-Linked [] s u l = (l, refl)
  run-Linked (round ∷ rounds) s u l =
      let (s', u') = exchange malloc (s, u) round in
      let (linked, same) = run-Linked rounds s' u' (exchange-Linked malloc room round u s l) in
      (linked, same ∙ exchange-fixed malloc s u round)

  run-progress :
      (rounds : List Round) (s : Simulator) (u : Upgrade)
      → Linked u s
      → All (λ (round : Round). round.fate ≡ answered) rounds
      → u.state ≢ error
      → let u' = (run_rounds malloc (s, u) rounds).1 in
        (u'.state ≢ error) × (rank u' ≤ rank u - length rounds)
  unfolding run_rounds
  run-progress [] s u l all alive = (alive, omega arith)
  run-progress (round ∷ rounds) s u l all alive =
      let (s', u') = exchange malloc (s, u) round in
      let (alive', less) = exchange-progress malloc room round u s l all.0 alive in
      let (alive'', less') =
        run-progress rounds s' u' (exchange-Linked malloc room round u s l) all.1 alive' in
      (alive'', omega arith)

rank_at-le : (d : UpgradeState) (size offset : ℕ) → rank_at d size offset ≤ size + 6
rank_at-le d size offset = ground arith

-- Nothing is left to do only of an update that is complete.
rank_at-zero :
    (d : UpgradeState) (u : Upgrade) (s : Simulator)
    → Stage d u s
    → d ≢ error
    → rank_at d u.image_size u.offset ≡ 0
    → d ≡ complete
rank_at-zero d u s st alive none_left = ground arith

overwrite-AreBytes : (old new : List ℕ) → AreBytes old → AreBytes new → AreBytes (overwrite old new)
unfolding overwrite
overwrite-AreBytes [] new a b = tt
overwrite-AreBytes (x ∷ old) [] a b = a
overwrite-AreBytes (x ∷ old) (y ∷ new) a b = (b.0, overwrite-AreBytes old new a.1 b.1)

abbrev stored_version : List ℕ → List ℕ
stored_version version = overwrite (replicate 32 0) (take (strlen version + 1) version)

-- What a call of `devmgr_upgrade_start` that succeeds leaves.
record Starts (image version : List ℕ) (u : Upgrade) : Type 0 where
  state : u.state ≡ enter_bootloader
  named : 0 < strlen version
  fits : strlen version ≤ version_max
  same : fixed u ≡ (image, length image, crc32 (at image), stored_version version)

stored-AreBytes : (text : List ℕ) → AreBytes text → AreBytes (overwrite (replicate 32 0) text)
stored-AreBytes text bytes = overwrite-AreBytes (replicate 32 0) text (ground arith) bytes

start-Starts :
    (u0 u : Upgrade) (image version : List ℕ) (chunk : ℕ)
    → start u0 (some image) (length image) (crc32 (at image)) (some version) chunk ≡ (ok, u)
    → Starts image version u
unfolding start init
start-Starts u0 u image version chunk h = ground arith

module _ (image version : List ℕ) (image_bytes : AreBytes image) (version_bytes : AreBytes version)
    (small : length image ≤ firmware_max_size) (ended : strlen version < length version) where
  started-Linked :
      (u : Upgrade) (s : Simulator) → IsUpgrade u → Starts image version u → IsReady s → Linked u s
  started-Linked u s v st ready =
      let image' : u.image_data ≡ image = ap (λ (x : List ℕ × ℕ × ℕ × List ℕ). x.0) st.same in
      let size' : u.image_size ≡ length image = ap (λ (x : List ℕ × ℕ × ℕ × List ℕ). x.1) st.same in
      let crc' : u.image_crc ≡ crc32 (at image) =
        ap (λ (x : List ℕ × ℕ × ℕ × List ℕ). x.2) st.same in
      let version' : u.version ≡ stored_version version =
        ap (λ (x : List ℕ × ℕ × ℕ × List ℕ). x.3) st.same in
      let size : strlen (stored_version version) ≡ strlen version =
        strlen-stored 32 version (omega (arith, st.fits)) in
      record {
        valid = v;
        fits = record {
          image = rw (image', size') refl;
          small = rw size' small;
          crc = rw (crc', image') refl;
          image_bytes = rw image' image_bytes;
          named = rw (version', size) st.named;
          version_array =
              rw version' (length-overwrite (replicate 32 0) (take (strlen version + 1) version));
          version_fits = rw (version', size) st.fits;
          crc_word = rw crc' (crc32-lt image image_bytes);
          version_bytes = rw version' (
              stored-AreBytes (take (strlen version + 1) version)
                (take-AreBytes (strlen version + 1) version version_bytes));
          sound = ready.sound;
          pending_array = ready.pending_array;
          firmware_array = ready.firmware_array;
        };
        stage = rw st.state ready.quiet;
      }

  final-IsUpdated :
      (u : Upgrade) (s : Simulator)
      → strlen version ≤ version_max
      → fixed u ≡ (image, length image, crc32 (at image), stored_version version)
      → Stage complete u s
      → IsUpdated image version s
  final-IsUpdated u s fits same (flash, reports) =
      let image' : u.image_data ≡ image = ap (λ (x : List ℕ × ℕ × ℕ × List ℕ). x.0) same in
      let version' : u.version ≡ stored_version version =
        ap (λ (x : List ℕ × ℕ × ℕ × List ℕ). x.3) same in
      let text = take (strlen version + 1) version in
      let size : strlen (stored_version version) ≡ strlen version =
        strlen-stored 32 version (omega (arith, fits)) in
      let length_text : strlen version + 1 ≡ length text =
        omega (arith, ended, length-take (strlen version + 1) version) in
      let stored : take (strlen version + 1) (stored_version version) ≡ text =
        take-overwrite (replicate 32 0) text (strlen version + 1) length_text
          (omega (arith, length_text, fits, length-replicate {A = ℕ} 32 0)) in
      (flash ∙ ap some image', (rw (version', size) at reports) ∙ stored)

  module _ (malloc : ℕ → Option (List ℕ)) (room : Allocates malloc) (chunk : ℕ) (u0 u : Upgrade)
      (s : Simulator) (valid : IsUpgrade u0)
      (h : start u0 (some image) (length image) (crc32 (at image)) (some version) chunk ≡ (ok, u))
      (ready : IsReady s) where
    at_start : Linked u s
    at_start =
        let v =
          start-IsUpgrade-some u0 image (length image) (crc32 (at image)) (some version) chunk refl
            valid in
        started-Linked u s (rw h at v) (start-Starts u0 u image version chunk h) ready

    -- An update that is complete has made the image of bytes the device's firmware, and the given
    -- version the one that it reports, after any rounds in each of which the device answers, the
    -- request is lost, or the response is lost. The host's upgrade was started with an image of at
    -- most 16 MiB and its CRC-32, the device has memory for it, has no update under way and is not
    -- told to fail the verification.
    pub completed-IsUpdated :
        (rounds : List Round)
        → let (s', u') = run_rounds malloc (s, u) rounds in
          u'.state ≡ complete → IsUpdated image version s'
    completed-IsUpdated rounds done =
        let (s', u') = run_rounds malloc (s, u) rounds in
        let st = start-Starts u0 u image version chunk h in
        let (l, same) = run-Linked malloc room rounds s u at_start in
        let stage = l.stage in final-IsUpdated u' s' st.fits (same ∙ st.same) (rw done at stage)

    -- Under the same conditions, after any rounds that have not made the upgrade fail, as many
    -- answered rounds as the image has bytes and six more bring the update to its end: it is
    -- COMPLETE, the device's firmware is the image and its version the one given.
    pub update_completes :
        (before rounds : List Round)
        → (run_rounds malloc (s, u) before).1.state ≢ error
        → All (λ (round : Round). round.fate ≡ answered) rounds
        → length image + 6 ≤ length rounds
        → let (s', u') = run_rounds malloc (run_rounds malloc (s, u) before) rounds in
          (u'.state ≡ complete) × IsUpdated image version s'
    update_completes before rounds alive all enough =
        let (s1, u1) = run_rounds malloc (s, u) before in
        let (s', u') = run_rounds malloc (s1, u1) rounds in
        let st = start-Starts u0 u image version chunk h in
        let (l1, same1) = run-Linked malloc room before s u at_start in
        let (l, same) = run-Linked malloc room rounds s1 u1 l1 in
        let (alive', less) = run-progress malloc room rounds s1 u1 l1 all alive in
        let size : u1.image_size ≡ length image =
          ap (λ (x : List ℕ × ℕ × ℕ × List ℕ). x.1) (same1 ∙ st.same) in
        let done : u'.state ≡ complete =
          rank_at-zero u'.state u' s' l.stage alive'
            (omega (arith, less, rank_at-le u1.state u1.image_size u1.offset, size, enough)) in
        let stage = l.stage in
        (done, final-IsUpdated u' s' st.fits (same ∙ same1 ∙ st.same) (rw done at stage))
