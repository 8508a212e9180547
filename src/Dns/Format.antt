-- ===== src/Dns/Format.antt =====
-- The DNS wire format (RFC 1035, 4.1; RFC 9460, 2.2) as an independent description, and the response
-- that a resolver sends for an HTTPS query.
pub mod Records
pub mod Question
mod Names
pub mod RoundTrip
