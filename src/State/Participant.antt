-- ===== src/State/Participant.antt =====
-- programs/bracket-chain/src/state/participant.rs.
use bracket_chain_programs.Prelude.{ℕ, Bool, List}

pub record Participant : Type 0 where
  pub key : ℕ
  pub tournament : ℕ
  pub wallet : ℕ
  pub seed_index : ℕ
  pub refund_paid : Bool
  pub bump : ℕ
  pub identity_hash : List ℕ
  pub identity_attestation : ℕ
  pub wins : ℕ
  pub losses : ℕ
  pub points_for : ℕ
  pub points_against : ℕ
