-- ===== src/Dns.antt =====
-- ech.go: the DNS query for the HTTPS record of a domain, and the ECH list in its answer.
pub mod Base64
pub mod Query
pub mod Response
pub mod Bounds
pub mod Format
