-- ===== src/Tests.antt =====
-- Concrete parameters and accounts, and the theorems of the development at them.
pub mod Ledger
pub mod Platform
pub mod Bracket
pub mod Settlement
pub mod Proposal
pub mod Refund
pub mod Seeding
pub mod Start
pub mod Closing
pub mod Oracle
pub mod Randomness
pub mod Registration
pub mod Admin
pub mod Lifecycle
pub mod Entering
