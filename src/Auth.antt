-- ===== src/Auth.antt =====
-- Access to accounts: apps/api/src/auth, and the guards that its sessions open.
pub mod Rows
pub mod State
pub mod Attempts
pub mod Sessions
pub mod Guard
pub mod SecondFactor
pub mod Login
pub mod PasswordReset
pub mod Frame
pub mod Families
pub mod Refused
pub mod SingleUse
pub mod NextStep
pub mod AttemptBounds
pub mod Accepted
pub mod Granted
pub mod Permissions
mod Fixture
mod Tests
mod FactorTests
