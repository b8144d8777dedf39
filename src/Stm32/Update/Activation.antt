-- ===== src/Stm32/Update/Activation.antt =====
-- What comes before the bootloader activates an image.
use linux_device_manager.Base.{
  ℕ, ◌+◌, ◌-◌, ◌≡◌, ◌⊎◌, inl, inr, arith, List, [], ◌∷◌, true, false, drop, suc, zero, length,
  Bool-cases, ltb, if◌then◌else◌, u16, u32, take,
}
use linux_device_manager.Stm32.Codec.{View, Encoded, get_le32, stm32_msg_fw_verify}
use linux_device_manager.Stm32.Update.State.{transferred, FlashOps, Update, is_verified}
use linux_device_manager.Stm32.Update.Handle.{
  handle, handle_begin, handle_data, duplicate_matches, handle_status, handle_end, handle_verify,
  handle_activate, handle_reboot, handle_cases, blocks_match,
}
use linux_device_manager.Stm32.Update.Invariant.{serve}

module _ {F : Type 0} where
  -- A predicate on the flash that every operation but `activate` keeps.
  pub record Keeps (flash : FlashOps F) (P : F → Type 0) : Type 0 where
    pub erase : (f : F) (size : ℕ) → P f → P (flash.erase f size).1
    pub write : (f : F) (offset : ℕ) (xs : List ℕ) → P f → P (flash.write f offset xs).1
    pub read : (f : F) (offset n : ℕ) → P f → P (flash.read f offset n).2
    pub crc32 : (f : F) (size : ℕ) → P f → P (flash.crc32 f size).1
    pub reboot : (f : F) → P f → P (flash.reboot f)

  -- The request makes the device compare the CRC of the whole image in flash with the announced
  -- one, and they agree.
  abbrev pub Verifies : Update F → View → Type 0
  Verifies u request =
      (u.state ≡ transferred)
      × (request.type ≡ stm32_msg_fw_verify)
      × ((u.flash.crc32 u.flash_context u.image_size).0 ≡ u.image_crc)

  handle-Verifies :
      (u : Update F) (request : View) (output : List ℕ) (n : ℕ)
      → is_verified (handle u request output n).0.state ≡ true
      → (is_verified u.state ≡ true) ⊎ Verifies u request
  unfolding handle handle_begin handle_data duplicate_matches handle_status handle_end handle_verify
      handle_activate handle_reboot
  handle-Verifies u request output n h = ground arith

  blocks_match-Keeps :
      (rounds : ℕ) (flash : FlashOps F) (f : F) (offset : ℕ) (xs : List ℕ) (P : F → Type 0)
      → Keeps flash P
      → P f
      → P (blocks_match rounds flash f offset xs).1
  unfolding blocks_match
  blocks_match-Keeps zero flash f offset xs P k h = h
  blocks_match-Keeps (suc rounds) flash f offset xs P k h =
      let count = if ltb (length xs) 32 then length xs else 32 in
      let f' = (flash.read f offset count).2 in
      let read' = k.read f offset count h in
      let rest =
        blocks_match-Keeps rounds flash f' (u32 (offset + count)) (drop count xs) P k read' in
      ground (arith, read', rest)

  -- The predicate on what a handler leaves.
  abbrev Left : (F → Type 0) → Update F × Encoded → Type 0
  Left P r = P r.0.flash_context

  begin-Keeps :
      (u : Update F) (request : View) (output : List ℕ) (n : ℕ) (P : F → Type 0)
      → Keeps u.flash P
      → P u.flash_context
      → P (handle_begin u request output n).0.flash_context
  unfolding handle_begin
  begin-Keeps u request output n P k h =
      ground (arith, k.erase u.flash_context (get_le32 request.payload) h)

  data-Keeps :
      (u : Update F) (request : View) (output : List ℕ) (n : ℕ) (P : F → Type 0)
      → Keeps u.flash P
      → P u.flash_context
      → P (handle_data u request output n).0.flash_context
  unfolding handle_data duplicate_matches
  data-Keeps u request output n P k h =
      let offset = get_le32 (drop 4 request.payload) in
      let data' = take (u16 (request.payload_length - 8)) (drop 8 request.payload) in
      ground (
        arith,
        k.write u.flash_context offset data' h,
        blocks_match-Keeps (length data') u.flash u.flash_context offset data' P k h,
      )

  handle-Keeps :
      (u : Update F) (request : View) (output : List ℕ) (n : ℕ) (P : F → Type 0)
      → Keeps u.flash P
      → is_verified u.state ≡ false
      → P u.flash_context
      → P (handle u request output n).0.flash_context
  unfolding handle_status handle_end handle_verify handle_activate handle_reboot
  handle-Keeps u request output n P k s h =
      let checked = k.crc32 u.flash_context u.image_size h in
      let rebooted = k.reboot u.flash_context h in
      handle_cases (Left P) u request output n h (begin-Keeps u request output n P k h)
        (data-Keeps u request output n P k h) (ground arith) (ground arith)
        (ground (arith, checked)) (ground (arith, s)) (ground (arith, rebooted)) h

  handle_flash :
      (u : Update F) (request : View) (output : List ℕ) (n : ℕ)
      → (handle u request output n).0.flash ≡ u.flash
  unfolding handle handle_begin handle_data duplicate_matches handle_status handle_end handle_verify
      handle_activate handle_reboot
  handle_flash u request output n = ground arith

  -- One of the requests verifies.
  abbrev pub SomeVerifies : Update F → List View → List ℕ → ℕ → Type 0
  SomeVerifies u [] output n = ⊥
  SomeVerifies u (request ∷ requests) output n =
      Verifies u request ⊎ SomeVerifies (handle u request output n).0 requests output n

  -- What every flash operation but `activate` keeps is kept by any requests to a bootloader that
  -- has not verified an image, unless one of them makes the device compute the CRC of the whole
  -- image in flash and it is the announced one: nothing is activated before that.
  pub serve_activates_verified :
      (requests : List View) (u : Update F) (output : List ℕ) (n : ℕ) (P : F → Type 0)
      → Keeps u.flash P
      → is_verified u.state ≡ false
      → P u.flash_context
      → P (serve u requests output n).flash_context ⊎ SomeVerifies u requests output n
  unfolding serve
  serve_activates_verified [] u output n P k s h = inl h
  serve_activates_verified (r ∷ rs) u output n P k s h =
      let u' = (handle u r output n).0 in
      elim (Bool-cases (is_verified u'.state)) [
        | inl yes' ↦ elim (handle-Verifies u r output n yes') [
          | inl before ↦ cc
          | inr now ↦ inr (inl now)
        ]
        | inr no' ↦
            elim (serve_activates_verified rs u' output n P (rw handle_flash k) no'
              (handle-Keeps u r output n P k s h)) [
                | inl kept ↦ inl kept
                | inr later ↦ inr (inr later)
              ]
      ]
