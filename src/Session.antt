-- ===== src/Session.antt =====
-- The device session: include/devmgr/session.h and src/device/session.c.
pub mod State
pub mod Request
