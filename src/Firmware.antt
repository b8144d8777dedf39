-- ===== src/Firmware.antt =====
-- src/upgrade/firmware.c and include/devmgr/firmware.h: the mapped image file. What the system
-- calls give is a parameter.
pub mod Opening
use linux_device_manager.Base.{
  ℕ, zero, suc, ◌≤◌, Bool, true, false, not, Option, none, some, List, [], ◌∷◌, ◌||◌, ◌!=◌, ◌==◌,
  ltb, if◌then◌else◌, length, strlen, ◌*◌, ℤ, pos, negsuc,
}
use linux_device_manager.Status.{Status, ok, invalid, io, limit}
use linux_device_manager.Span.{at}
use linux_device_manager.Crc.{crc32}

-- `DEVMGR_FIRMWARE_MAX_SIZE`
abbrev pub firmware_max_size : ℕ
firmware_max_size = 16 * 1024 * 1024

-- `struct devmgr_firmware_image`: `fd` is `none` for -1, and `image_data` (`data` there) for a null pointer, else the
-- bytes it points at.
pub record Image : Type 0 where
  pub fd : Option ℕ
  pub image_data : Option (List ℕ)
  pub size : ℕ  -- size_t
  pub crc32 : ℕ  -- uint32_t

-- The image that a `memset` and the store of -1 leave.
abbrev pub no_image : Image
no_image = record { fd = none; image_data = none; size = 0; crc32 = 0 }

-- What a call of `open` gives: a descriptor, EINTR, or another error.
pub data Open : Type 0 where
  opened : ℕ → Open
  interrupted : Open
  failed : Open

-- What `fstat` says of a file.
pub record Stat : Type 0 where
  pub regular : Bool
  pub size : ℤ  -- off_t

-- The loop around `open`: the descriptor, or `some none` on an error; `none` when the given
-- outcomes end first.
abbrev pub open_loop : List Open → Option (Option ℕ)
open_loop [] = none
open_loop (opened fd ∷ calls) = some (some fd)
open_loop (interrupted ∷ calls) = open_loop calls
open_loop (failed ∷ calls) = some none

-- A call's status, `*image`, and the descriptors that it closes.
pub record Opened : Type 0 where
  pub status : Status
  pub image : Image
  pub closed : List ℕ

-- The size of a file that is taken, 0 for one that is refused.
abbrev pub accepted_size : Option Stat → ℕ
accepted_size none = 0
accepted_size (some stat) = elim stat.size [
  | negsuc n ↦ 0
  | pos n ↦ if not stat.regular || ltb firmware_max_size n then 0 else n
]

-- What follows `mmap`.
abbrev pub mapped_file : ℕ → ℕ → Option (List ℕ) → Opened
mapped_file fd size none = record { status = io; image = no_image; closed = fd ∷ [] }
mapped_file fd size (some bytes) = record {
  status = ok;
  image = record { fd = some fd; image_data = some bytes; size = size; crc32 = crc32 (at bytes) };
  closed = [];
}

-- What follows the loop; `mmap` gives the bytes of the file, or `none` for MAP_FAILED.
abbrev pub opened_file : Option Stat → (ℕ → Option (List ℕ)) → Option ℕ → Opened
opened_file stat mmap none = record { status = io; image = no_image; closed = [] }
opened_file stat mmap (some fd) =
    let size = accepted_size stat in
    if size == 0
    then record { status = limit; image = no_image; closed = fd ∷ [] }
    else mapped_file fd size (mmap size)

-- `devmgr_firmware_open` with an image pointer that is not null; `none` is a null path.
unfoldable pub firmware_open :
    Image → Option (List ℕ) → List Open → Option Stat → (ℕ → Option (List ℕ)) → Option Opened
firmware_open image none calls stat mmap =
    some (record { status = invalid; image = image; closed = [] })
firmware_open image (some path) calls stat mmap =
    if strlen path == 0
    then some (record { status = invalid; image = image; closed = [] })
    else elim (open_loop calls) [ none ↦ none | some result ↦ some (opened_file stat mmap result) ]

-- What `devmgr_firmware_close` does: the image it leaves, the descriptors it closes, and the sizes
-- that it unmaps.
pub record Closed : Type 0 where
  pub image : Image
  pub closed : List ℕ
  pub unmapped : List ℕ

-- `devmgr_firmware_close` with a pointer that is not null.
unfoldable pub firmware_close : Image → Closed
firmware_close image = record {
  image = no_image;
  closed = elim image.fd [ none ↦ [] | some fd ↦ fd ∷ [] ];
  unmapped = elim image.image_data [
    | none ↦ []
    | some bytes ↦ if image.size == 0 then [] else image.size ∷ []
  ];
}
