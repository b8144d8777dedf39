-- ===== src/Tests.antt =====
-- Runs of the models on concrete inputs, and instances of the theorems.
mod Frames
mod Rings
mod Sessions
mod Upgrades
mod Simulators
mod Outputs
mod Workers
mod Daemons
mod Loops
mod Managers
mod Ipcs
mod Parsers
mod Stm32s
