-- ===== src/EndToEnd.antt =====
-- The two ends of the tunnel together: pool.go on the client and websocket_server.go on the server,
-- joined by the frames that pass between them.
pub mod Upstream
pub mod Downstream
pub mod Opening
pub mod Datagrams
pub mod Tunnel
pub mod Startup
pub mod Session
pub mod Redial
pub mod Early
pub mod Multiplex
