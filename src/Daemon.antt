-- ===== src/Daemon.antt =====
-- apps/devmgrd/daemon.c: the state of the daemon, its handlers, and its event loop.
pub mod State
pub mod Calls
pub mod Input
pub mod Output
pub mod Upgrading
pub mod Clients
pub mod Coupling
pub mod Handling
pub mod Trace
pub mod Late
pub mod Loop
pub mod Setup
pub mod Served
