-- ===== src/Upgrade.antt =====
-- The firmware upgrade on the host: include/devmgr/upgrade.h and src/upgrade/upgrade.c.
pub mod State
pub mod Build
pub mod Accept
pub mod Invariant
pub mod Trace
pub mod Requests
