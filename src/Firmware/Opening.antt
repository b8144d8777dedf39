-- ===== src/Firmware/Opening.antt =====
-- What an opened image is good for, and that a refused file is closed.
use linux_device_manager.Base.{
  ℕ, ◌≤◌, ◌<◌, ◌≡◌, ◌≢◌, ◌⊎◌, inl, inr, refl, sym, arith, false, Option, none, some, List, [], ◌∷◌,
  length, strlen, ◌==◌, Bool-cases,
}
use linux_device_manager.Status.{ok, io, limit}
use linux_device_manager.Span.{at}
use linux_device_manager.Crc.{crc32}
use linux_device_manager.Firmware.{
  Image, no_image, Open, open_loop, Stat, Opened, opened_file, mapped_file, accepted_size,
  firmware_open, firmware_close, firmware_max_size,
}
use linux_device_manager.Upgrade.State.{Upgrade, start, version_max, default_chunk}

-- What `mmap` documents: the mapping has the length asked for.
abbrev pub Maps : (ℕ → Option (List ℕ)) → Type 0
Maps mmap = (n : ℕ) (bytes : List ℕ) → mmap n ≡ some bytes → length bytes ≡ n

-- The image of the file behind the descriptor `fd`.
pub record IsImage (fd : ℕ) (image : Image) : Type 0 where
  pub bytes : List ℕ
  pub content : image.image_data ≡ some bytes
  pub descriptor : image.fd ≡ some fd
  pub size : image.size ≡ length bytes
  pub positive : 0 < length bytes
  pub small : length bytes ≤ firmware_max_size
  pub sum : image.crc32 ≡ crc32 (at bytes)

-- How a call ends that has opened the descriptor `fd`: the image holds it, or it is closed.
abbrev pub Ends : ℕ → Opened → Type 0
Ends fd r =
    ((r.status ≡ ok) × IsImage fd r.image × (r.closed ≡ []))
    ⊎ (((r.status ≡ limit) ⊎ (r.status ≡ io)) × (r.image ≡ no_image) × (r.closed ≡ fd ∷ []))

accepted_size-le : (stat : Option Stat) → accepted_size stat ≤ firmware_max_size
accepted_size-le none = omega arith
accepted_size-le (some stat) = ground arith

mapped_file-Ends :
    (fd size : ℕ) (r : Option (List ℕ))
    → ((bytes : List ℕ) → r ≡ some bytes → length bytes ≡ size)
    → 0 < size
    → size ≤ firmware_max_size
    → Ends fd (mapped_file fd size r)
mapped_file-Ends fd size none maps positive small = inr (inr refl, refl, refl)
mapped_file-Ends fd size (some bytes) maps positive small =
    let e = maps bytes refl in
    inl (
      refl,
      record {
        bytes = bytes;
        content = refl;
        descriptor = refl;
        size = sym e;
        positive = omega (arith, e);
        small = omega (arith, e);
        sum = refl;
      },
      refl,
    )

opened_file-Ends :
    (stat : Option Stat) (mmap : ℕ → Option (List ℕ)) (fd : ℕ)
    → Maps mmap
    → Ends fd (opened_file stat mmap (some fd))
opened_file-Ends stat mmap fd maps =
    let size = accepted_size stat in
    elim (Bool-cases (size == 0)) [
      | inl e ↦ rw e (inr (inl refl, refl, refl))
      | inr e ↦
          rw e (
            mapped_file-Ends fd size (mmap size) (maps size) (ground arith) (accepted_size-le stat))
    ]

-- When `open` gives a descriptor for a path that is not empty, and `mmap` maps as many bytes as it
-- is asked for, `devmgr_firmware_open` returns: either DEVMGR_OK, with the descriptor, the file's
-- bytes, between 1 and 16 MiB of them, and their CRC-32 in the image, and closes nothing; or
-- DEVMGR_ERROR_LIMIT or DEVMGR_ERROR_IO, with an empty image and the descriptor closed.
pub firmware_open-Ends :
    (image : Image) (path : List ℕ) (calls : List Open) (stat : Option Stat)
    (mmap : ℕ → Option (List ℕ)) (fd : ℕ)
    → Maps mmap
    → strlen path ≢ 0
    → open_loop calls ≡ some (some fd)
    → (r : Opened) × (firmware_open image (some path) calls stat mmap ≡ some r) × Ends fd r
unfolding firmware_open
firmware_open-Ends image path calls stat mmap fd maps named e =
    let filled : (strlen path == 0) ≡ false = ground arith in
    (opened_file stat mmap (some fd), rw (filled, e) refl, opened_file-Ends stat mmap fd maps)

-- An image that opens, with a version that fits, starts an update.
pub opened_starts :
    (u : Upgrade) (fd : ℕ) (image : Image) (version : List ℕ)
    → IsImage fd image
    → 1 ≤ strlen version
    → strlen version ≤ version_max
    → (start u image.image_data image.size image.crc32 (some version) default_chunk).0 ≡ ok
unfolding start
opened_starts u fd image version i named fits =
    rw (i.content, i.size) (ground (arith, i.positive, i.small))

-- Closing an image that was opened gives back its descriptor and its mapping.
pub firmware_close-IsImage :
    (fd : ℕ) (image : Image)
    → IsImage fd image
    → firmware_close image
      ≡ record { image = no_image; closed = fd ∷ []; unmapped = image.size ∷ [] }
unfolding firmware_close
firmware_close-IsImage fd image i =
    let positive : (image.size == 0) ≡ false = ground (arith, i.size, i.positive) in
    rw (i.descriptor, i.content, positive) refl
