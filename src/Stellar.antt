-- ===== src/Stellar.antt =====
-- packages/stellar: what a payment costs and how it is settled.
pub mod SwapFunding
pub mod Amounts
pub mod Pipeline
pub mod Envelope
pub mod Signature
pub mod Service
