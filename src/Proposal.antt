-- ===== src/Proposal.antt =====
-- The instructions that settle a match, under programs/bracket-chain/src/instructions. Envelope holds
-- propose_result.rs and dispute_result.rs, which write the proposal's envelope; Finalizers holds the
-- six that finalize: report_result.rs, confirm_result.rs, claim_result.rs, force_claim_disputed.rs,
-- resolve_dispute.rs and settle_final.rs.
pub mod Envelope
pub mod Finalizers
pub mod Calls
pub mod Safety
pub mod Window
pub mod Steps
pub mod Lifecycle
