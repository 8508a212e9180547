-- ===== src/TcpClient.antt =====
-- tcp_client.go: the forwarding rules of the TCP client, and the dialling of a WebSocket with ECH.
pub mod Rules
pub mod Dial
pub mod Forwarder
