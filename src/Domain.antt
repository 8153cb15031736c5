-- ===== src/Domain.antt =====
-- packages/domain: the payment state machine.
pub mod Payment
