-- ===== src/Pool.antt =====
-- pool.go: the client's pool of WebSocket channels, `ECHPool`. A method that runs in several locked
-- regions is composed of one function for each region, so that Steps can interleave them.
pub mod State
pub mod Reply
pub mod Claim
pub mod Send
pub mod Channel
pub mod Steps
pub mod Invariant
pub mod Race
pub mod Binding
pub mod Asking
pub mod Dial
pub mod Start
