-- ===== src/Refund.antt =====
-- The ways out of a tournament that does not finish: cancel_tournament.rs,
-- partial_cancel_tournament.rs and partial_refund_chunk.rs under
-- programs/bracket-chain/src/instructions. The two refunding handlers have the same code after
-- their checks of the status, which is `process_refunds` here.
pub mod Process
pub mod Handlers
pub mod Once
pub mod Again
pub mod Solvent
pub mod Outcome
pub mod Live
