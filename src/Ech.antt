-- ===== src/Ech.antt =====
-- ech.go: the ECH list that the client keeps, and how it is fetched.
pub mod Cache
pub mod Fetch
pub mod Doh
pub mod Request
