-- ===== src/Api/Intents.antt =====
-- apps/api/src/application/IntentService.ts over
-- apps/api/src/infrastructure/InMemoryIntentRepository.ts.
pub mod Records
pub mod Store
pub mod Interleave
pub mod Checks
pub mod Service
pub mod Claims
pub mod Rely
pub mod Advance
pub mod Hoare
pub mod Answers
pub mod Requests
pub mod Transitions
pub mod Conflicts
pub mod Exclusive
pub mod Holders
pub mod Listing
mod Tests
