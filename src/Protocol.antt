-- ===== src/Protocol.antt =====
-- packages/protocol: requests and what a reader asks of them.
pub mod Schema
pub mod Validation
pub mod Amounts
