-- ===== src/Simulator.antt =====
-- simulator/device: the simulated device.
pub mod State
pub mod Answer
pub mod Output
pub mod Exchange
