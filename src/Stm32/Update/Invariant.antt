-- ===== src/Stm32/Update/Invariant.antt =====
-- What the bootloader keeps true of its state, whatever the flash does.
use linux_device_manager.Base.{ℕ, ◌^◌, ◌≤◌, ◌<◌, ◌≡◌, ◌⊎◌, arith, List, [], ◌∷◌, All, some}
use linux_device_manager.Span.{AreBytes}
use linux_device_manager.Protocol.Le
use linux_device_manager.Stm32.Codec.{View, get_le32}
use linux_device_manager.Stm32.Codec.Agrees.{get_le32-eq}
use linux_device_manager.Stm32.Update.State.{
  receiving, transferred, verified, FlashOps, Update, init,
}
use linux_device_manager.Stm32.Update.Handle.{
  handle, handle_begin, handle_data, duplicate_matches, handle_status, handle_end, handle_verify,
  handle_activate, handle_reboot, handle_cases,
}

get_le32-lt : (xs : List ℕ) → AreBytes xs → get_le32 xs < 2 ^ 32
get_le32-lt xs b = rw get_le32-eq (Le.get_le32-lt xs b)

module _ {F : Type 0} where
  pub record IsUpdate (u : Update F) : Type 0 where
    pub session_positive : 0 < u.session_id
    pub session_word : u.session_id < 2 ^ 32
    pub size_word : u.image_size < 2 ^ 32
    pub offset_in : u.next_offset ≤ u.image_size
    pub nonempty : u.state ≡ receiving → 0 < u.image_size
    pub whole : (u.state ≡ transferred) ⊎ (u.state ≡ verified) → u.next_offset ≡ u.image_size

  begin-IsUpdate :
      (u : Update F) (request : View) (output : List ℕ) (n : ℕ)
      → AreBytes request.payload
      → IsUpdate u
      → IsUpdate (handle_begin u request output n).0
  unfolding handle_begin
  begin-IsUpdate u request output n b v = ground (arith, get_le32-lt request.payload b)

  data-IsUpdate :
      (u : Update F) (request : View) (output : List ℕ) (n : ℕ)
      → IsUpdate u
      → IsUpdate (handle_data u request output n).0
  unfolding handle_data duplicate_matches
  data-IsUpdate u request output n v = ground arith

  handle-IsUpdate :
      (u : Update F) (request : View) (output : List ℕ) (n : ℕ)
      → AreBytes request.payload
      → IsUpdate u
      → IsUpdate (handle u request output n).0
  unfolding handle_status handle_end handle_verify handle_activate handle_reboot
  handle-IsUpdate u request output n b v =
      handle_cases (λ r. IsUpdate r.0) u request output n v (begin-IsUpdate u request output n b v)
        (data-IsUpdate u request output n v) (ground arith) (ground arith) (ground arith)
        (ground arith) (ground arith) v

  init-IsUpdate :
      (u : Update F) (flash : FlashOps F) (context : F) → IsUpdate (init u (some flash) context).1
  unfolding init
  init-IsUpdate u flash context = ground arith

  -- The requests one after another, each answered in the response buffer `output`.
  unfoldable pub serve : Update F → List View → List ℕ → ℕ → Update F
  serve u [] output n = u
  serve u (request ∷ requests) output n = serve (handle u request output n).0 requests output n

  serve_from-IsUpdate :
      (requests : List View) (u : Update F) (output : List ℕ) (n : ℕ)
      → All (λ (r : View). AreBytes r.payload) requests
      → IsUpdate u
      → IsUpdate (serve u requests output n)
  unfolding serve
  serve_from-IsUpdate [] u output n b v = v
  serve_from-IsUpdate (r ∷ rs) u output n b v =
      serve_from-IsUpdate rs (handle u r output n).0 output n b.1
        (handle-IsUpdate u r output n b.0 v)

  -- After any requests to a new bootloader, with payloads of bytes and whatever the flash
  -- answers: the session number is a nonzero 32-bit value, the next offset is within the image,
  -- an image that is being received is not empty, and one that is transferred or verified was
  -- received to its end.
  pub serve-IsUpdate :
      (u : Update F) (flash : FlashOps F) (context : F) (requests : List View) (output : List ℕ)
      (n : ℕ)
      → All (λ (r : View). AreBytes r.payload) requests
      → IsUpdate (serve (init u (some flash) context).1 requests output n)
  serve-IsUpdate u flash context requests output n b =
      serve_from-IsUpdate requests (init u (some flash) context).1 output n b
        (init-IsUpdate u flash context)
