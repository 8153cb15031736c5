-- ===== src/Mobile.antt =====
-- apps/mobile: the state of the app, and what its screens decide from it.
pub mod Session
pub mod Merchant
pub mod Retry
pub mod Funding
