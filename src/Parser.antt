-- ===== src/Parser.antt =====
-- include/devmgr/parser.h and src/protocol/parser.c: frames out of a stream of bytes.
pub mod Drain
pub mod Stream
pub mod Scan
pub mod Feed
pub mod Deliver
pub mod Callback
