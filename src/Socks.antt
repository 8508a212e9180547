-- ===== src/Socks.antt =====
-- socks5.go: the SOCKS5 front end of the client.
pub mod Address
pub mod Packet
pub mod Handshake
pub mod Association
