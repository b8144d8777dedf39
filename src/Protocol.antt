-- ===== src/Protocol.antt =====
-- The wire protocol: include/devmgr/protocol.h and src/protocol/frame.c.
pub mod Constants
pub mod Le
pub mod Frame
