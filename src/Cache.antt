-- ===== src/Cache.antt =====
-- The cache of responses (crates/openwire-cache/src/lib.rs).
pub mod Http
pub mod Directives
pub mod Vary
pub mod Freshness
pub mod Entry
pub mod Store
pub mod Keys
pub mod Intercept
pub mod Examples
