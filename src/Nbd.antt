-- ===== src/Nbd.antt =====
-- The NBD client of libwnbd/nbd_protocol.cpp: the transport, the handshake, requests and replies.
pub mod Daemon
pub mod Start
pub mod Wire
pub mod Socket
pub mod Handshake
pub mod Request
