-- ===== src/Settlement.antt =====
-- programs/bracket-chain/src/instructions/settlement.rs: how a match is finalized, by every path.
-- Split and Advance hold the parts with no transfer, Prizes the payment of the pool, Finalize the
-- whole; the others hold proofs. A function takes the accounts that it reads and returns those that
-- it writes, with the token program's ledger and the log.
pub mod Split
pub mod Advance
pub mod Prizes
pub mod Finalize
pub mod Exact
pub mod Payment
pub mod Drained
pub mod Total
pub mod Siblings
pub mod Outcome
pub mod Finality
