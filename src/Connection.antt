-- ===== src/Connection.antt =====
-- Connections: addresses and routes, one connection's state, the pool, and the admission of
-- requests (crates/openwire/src/connection).
pub mod Planning
pub mod ConnectPlan
pub mod Equality
pub mod RealConnection
pub mod Pool
pub mod FastFallback
pub mod Limits
pub mod Queue
pub mod Scheduler
pub mod Examples
