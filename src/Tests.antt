-- ===== src/Tests.antt =====
-- Runs of the model at concrete inputs, and the theorems applied at such inputs.
mod PoolTests
mod ServerTests
mod DnsTests
mod SocksTests
mod ProxyTests
mod AssociationTests
mod HttpTests
mod MultiplexTests
mod ClientTests
mod DatagramTests
mod EntryTests
mod MainTests
mod LoginTests
mod WebTests
mod ForwarderTests
