-- ===== src/Stm32/Update/Handle.antt =====
-- firmware/stm32f103/bootloader/update.c: the bootloader's handler of a request.
use linux_device_manager.Base.{
  ℕ, ◌+◌, ◌-◌, zero, suc, Bool, true, false, not, List, ◌++◌, ◌&&◌, ◌||◌, ltb, leb, ◌==◌, ◌!=◌,
  if◌then◌else◌, if-both, length, take, drop, overwrite, strlen, equal_bytes, equal_strings, u16,
  u32,
}
use linux_device_manager.Span.{Span, null, at}
use linux_device_manager.Stm32.Codec.{
  View, put_le16, put_le32, get_le16, get_le32, Encoded, encode, frame_response,
  stm32_msg_enter_bootloader, stm32_msg_fw_begin, stm32_msg_fw_data, stm32_msg_fw_status,
  stm32_msg_fw_end, stm32_msg_fw_verify, stm32_msg_fw_activate, stm32_msg_reboot, stm32_msg_nack,
}
use linux_device_manager.Stm32.Update.State.{
  nack_invalid_state, nack_invalid_payload, nack_offset, nack_storage, nack_verify, receiving,
  transferred, verified, FlashOps, Update, is_zero, is_receiving, is_transferred, is_verified,
}

-- `respond`; the span is `payload` with `payload_length`.
unfoldable pub respond : View → ℕ → Span → List ℕ → ℕ → Encoded
respond request type payload output n = encode type frame_response request.sequence payload output n

-- `nack`
unfoldable pub nack : View → ℕ → List ℕ → ℕ → Encoded
nack request error output n = respond request stm32_msg_nack (at (put_le16 error)) output n

module _ {F : Type 0} where
  -- A refusal, and an answer to a request.
  abbrev pub refused : Update F → View → ℕ → List ℕ → ℕ → Update F × Encoded
  refused u request error output n = (u, nack request error output n)

  abbrev pub answered : Update F → View → Span → List ℕ → ℕ → Update F × Encoded
  answered u request payload output n = (u, respond request request.type payload output n)

  -- The loop of `duplicate_matches` on the data that is left, in blocks of 32 bytes: every round
  -- takes a byte or more, so as many rounds as there are bytes are enough.
  unfoldable pub blocks_match : ℕ → FlashOps F → F → ℕ → List ℕ → Bool × F
  blocks_match zero flash context offset data' = (true, context)
  blocks_match (suc rounds) flash context offset data' =
      let count = if ltb (length data') 32 then length data' else 32 in
      let (result, scratch, context') = flash.read context offset count in
      let rest = blocks_match rounds flash context' (u32 (offset + count)) (drop count data') in
      if length data' == 0
      then (true, context)
      else if not (is_zero result) || not (equal_bytes scratch (take count data'))
      then (false, context')
      else rest

  -- `duplicate_matches`
  unfoldable pub duplicate_matches : Update F → ℕ → List ℕ → Bool × Update F
  duplicate_matches u offset data' =
      let (matches, context) = blocks_match (length data') u.flash u.flash_context offset data' in
      (matches, record u { flash_context = context })

  -- `handle_begin`
  unfoldable pub handle_begin : Update F → View → List ℕ → ℕ → Update F × Encoded
  handle_begin u request output n =
      let size = get_le32 request.payload in
      let crc = get_le32 (drop 4 request.payload) in
      let chunk = get_le16 (drop 8 request.payload) in
      let text = take (request.payload_length - 10) (drop 10 request.payload) in
      let version_length = if strlen text == length text then 0 else strlen text in
      let (result, context) = u.flash.erase u.flash_context size in
      let next = u32 (u.session_id + 1) in
      let session = if next == 0 then 1 else next in
      let u' = record u {
        flash_context = context;
        session_id = session;
        image_size = size;
        image_crc = crc;
        chunk_size = chunk;
        next_offset = 0;
        pending_version = overwrite u.pending_version (take (version_length + 1) text);
        state = receiving;
      } in
      if ltb request.payload_length 11
      then refused u request nack_invalid_payload output n
      else if size == 0
          || (chunk == 0 || (version_length == 0 || leb (length u.pending_version) version_length))
      then refused u request nack_invalid_payload output n
      else if is_receiving u.state
          && ((size == u.image_size)
              && ((crc == u.image_crc) && equal_strings text u.pending_version))
      then answered u request (at (put_le32 u.session_id ++ put_le32 u.next_offset)) output n
      else if not (is_zero result)
      then refused (record u { flash_context = context }) request nack_storage output n
      else answered u' request (at (put_le32 session ++ put_le32 0)) output n

  -- `handle_data`
  unfoldable pub handle_data : Update F → View → List ℕ → ℕ → Update F × Encoded
  handle_data u request output n =
      let offset = get_le32 (drop 4 request.payload) in
      let data_length = u16 (request.payload_length - 8) in
      let data' = take data_length (drop 8 request.payload) in
      let (matches, checked) = duplicate_matches u offset data' in
      let (result, context) = u.flash.write u.flash_context offset data' in
      let u' = record u {
        flash_context = context;
        next_offset = u32 (u.next_offset + data_length);
      } in
      if not (is_receiving u.state)
        || (leb request.payload_length 8 || get_le32 request.payload != u.session_id)
      then refused u request nack_invalid_state output n
      else if ltb u.chunk_size data_length
          || (ltb u.image_size offset || ltb (u.image_size - offset) data_length)
      then refused u request nack_offset output n
      else if ltb offset u.next_offset
      then (if ltb u.next_offset (u32 (offset + data_length))
          then refused u request nack_offset output n
          else if not matches
          then refused checked request nack_offset output n
          else answered checked request (at (put_le32 checked.next_offset)) output n)
      else if offset == u.next_offset
      then (if not (is_zero result)
          then refused (record u { flash_context = context }) request nack_storage output n
          else answered u' request (at (put_le32 u'.next_offset)) output n)
      else refused u request nack_offset output n

  unfoldable pub handle_status : Update F → View → List ℕ → ℕ → Update F × Encoded
  handle_status u request output n =
      if request.payload_length != 4 || get_le32 request.payload != u.session_id
      then refused u request nack_invalid_state output n
      else answered u request (at (put_le32 u.session_id ++ put_le32 u.next_offset)) output n

  unfoldable pub handle_end : Update F → View → List ℕ → ℕ → Update F × Encoded
  handle_end u request output n =
      if not (is_receiving u.state) || u.next_offset != u.image_size
      then refused u request nack_offset output n
      else answered (record u { state = transferred }) request (null 0) output n

  unfoldable pub handle_verify : Update F → View → List ℕ → ℕ → Update F × Encoded
  handle_verify u request output n =
      let (value, context) = u.flash.crc32 u.flash_context u.image_size in
      let u' = record u { flash_context = context } in
      if not (is_transferred u.state)
      then refused u request nack_verify output n
      else if value != u.image_crc
      then refused u' request nack_verify output n
      else answered (record u' { state = verified }) request (at (put_le32 u.image_crc)) output n

  unfoldable pub handle_activate : Update F → View → List ℕ → ℕ → Update F × Encoded
  handle_activate u request output n =
      let (result, context) =
        u.flash.activate u.flash_context u.image_size u.image_crc u.pending_version in
      let u' = record u { flash_context = context } in
      if not (is_verified u.state)
      then refused u request nack_invalid_state output n
      else if not (is_zero result)
      then refused u' request nack_invalid_state output n
      else answered u' request (null 0) output n

  unfoldable pub handle_reboot : Update F → View → List ℕ → ℕ → Update F × Encoded
  handle_reboot u request output n =
      let reply = respond request request.type (null 0) output n in
      (
        if is_zero reply.result
            then record u { flash_context = u.flash.reboot u.flash_context }
            else u,
        reply,
      )

  -- `stm32_update_handle`; `output` is the response buffer and `n` what `*response_length` holds.
  unfoldable pub handle : Update F → View → List ℕ → ℕ → Update F × Encoded
  handle u request output n =
      if request.type == stm32_msg_enter_bootloader
      then answered u request (null 0) output n
      else if request.type == stm32_msg_fw_begin
      then handle_begin u request output n
      else if request.type == stm32_msg_fw_data
      then handle_data u request output n
      else if request.type == stm32_msg_fw_status
      then handle_status u request output n
      else if request.type == stm32_msg_fw_end
      then handle_end u request output n
      else if request.type == stm32_msg_fw_verify
      then handle_verify u request output n
      else if request.type == stm32_msg_fw_activate
      then handle_activate u request output n
      else if request.type == stm32_msg_reboot
      then handle_reboot u request output n
      else refused u request nack_invalid_payload output n

  -- What holds of every handler's outcome holds of `handle`.
  pub handle_cases :
      (P : Update F × Encoded → Type 0) (u : Update F) (request : View) (output : List ℕ) (n : ℕ)
      → P (answered u request (null 0) output n)
      → P (handle_begin u request output n)
      → P (handle_data u request output n)
      → P (handle_status u request output n)
      → P (handle_end u request output n)
      → P (handle_verify u request output n)
      → P (handle_activate u request output n)
      → P (handle_reboot u request output n)
      → P (refused u request nack_invalid_payload output n)
      → P (handle u request output n)
  unfolding handle
  handle_cases P u request output n p1 p2 p3 p4 p5 p6 p7 p8 p9 = if-both P _ _ _ p1 (
      if-both P _ _ _ p2 (
        if-both P _ _ _ p3 (
          if-both P _ _ _ p4 (
            if-both P _ _ _ p5 (if-both P _ _ _ p6 (if-both P _ _ _ p7 (if-both P _ _ _ p8 p9)))))))
