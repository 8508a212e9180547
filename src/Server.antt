-- ===== src/Server.antt =====
-- websocket_server.go: one WebSocket connection of the server, `handleWebSocket`, with the state
-- that its message loop and its goroutines share. How a frame is read is in Request, what it does
-- in Handler, the goroutines of its connections in Tcp and Udp; who may open it in Access.
pub mod Request
pub mod Handler
pub mod Tcp
pub mod Steps
pub mod Isolation
pub mod Access
pub mod Listen
pub mod Udp
