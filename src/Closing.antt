-- ===== src/Closing.antt =====
-- programs/bracket-chain/src/instructions/close_tournament.rs.
pub mod Handler
pub mod Swept
pub mod Outcome
pub mod Lost
