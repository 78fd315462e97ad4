-- ===== src/Processing.antt =====
-- The document-processing pipeline of the worker (apps/worker/src/processing), over the tables
-- that it reads and writes.
pub mod Status
pub mod Cost
pub mod Rows
pub mod Store
pub mod Target
pub mod Claim
pub mod DeterministicId
pub mod Completion
pub mod Complete
pub mod Budget
pub mod Settle
pub mod Limit
pub mod Pipeline
pub mod Accounting
pub mod Transitions
pub mod Blocking
pub mod CancelRace
mod Fixture
mod Tests
pub mod LostRace
