-- ===== src/State/ProtocolConfig.antt =====
-- programs/bracket-chain/src/state/protocol_config.rs.
use bracket_chain_programs.Prelude.{ℕ, List}

pub record ProtocolConfig : Type 0 where
  pub key : ℕ
  pub authority : ℕ
  pub treasury : ℕ
  pub default_mint : ℕ
  pub fee_bps : ℕ
  pub bump : ℕ
  pub sas_credential : ℕ
  pub sas_schemas : List ℕ
  pub switchboard_queue : ℕ
  pub max_stale_slots : ℕ
  pub min_oracle_samples : ℕ
