-- ===== src/Stm32/Update.antt =====
-- firmware/stm32f103/bootloader: the bootloader's side of a firmware update.
pub mod State
pub mod Handle
pub mod Invariant
pub mod Activation
