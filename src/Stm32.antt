-- ===== src/Stm32.antt =====
-- firmware/stm32f103: the reference firmware of the device.
pub mod Codec
pub mod Update
pub mod App
