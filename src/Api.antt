-- ===== src/Api.antt =====
-- apps/api: the HTTP service that keeps payment requests, sessions and merchant profiles.
pub mod Intents
pub mod DeviceAuth
pub mod RateLimiter
pub mod Profiles
pub mod Access
pub mod Wallets
pub mod Relayer
pub mod Prices
pub mod Admission
