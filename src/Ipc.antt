-- ===== src/Ipc.antt =====
-- The local socket protocol: include/devmgr/ipc.h and src/ipc/codec.c.
pub mod Codec
pub mod RoundTrip
