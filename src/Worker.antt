-- ===== src/Worker.antt =====
-- apps/worker: the loop that confirms, fails and expires settlements.
pub mod Confirmation
pub mod Settlements
pub mod Loop
pub mod Page
pub mod Cycle
