-- ===== src/Proxy.antt =====
-- Proxy selection (crates/openwire/src/proxy.rs): rules, their exclusions, and the candidates of an
-- attempt.
pub mod Exclusions
pub mod Cidr
pub mod Rules
pub mod Candidates
pub mod Examples
