-- ===== src/Policy.antt =====
-- The policies of a call: retries, redirects, authentication, and the loop that follows them up
-- (crates/openwire/src/policy).
pub mod Types
pub mod Retry
pub mod Redirect
pub mod Request
pub mod Config
pub mod FollowUp
pub mod Examples
