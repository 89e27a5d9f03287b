-- ===== src/Oracle/Config.antt =====
-- set_oracle_config.rs and set_sas_config.rs.
use bracket_chain_programs.Prelude.{ℕ, List, leb, ◌==◌}
use bracket_chain_programs.Errors.{
  Result, ok, unauthorized_authority, invalid_oracle_config, ◌>>◌, require,
}
use bracket_chain_programs.Constants.{min_oracle_samples_floor, max_oracle_stale_slots_ceiling}
use bracket_chain_programs.State.ProtocolConfig.{ProtocolConfig}
use bracket_chain_programs.Runtime.{Runtime}
use bracket_chain_programs.Accounts.{check_protocol_config}

unfoldable pub validate_oracle_bounds : ℕ → ℕ → Result (Unit {0})
validate_oracle_bounds max_stale_slots min_oracle_samples = do
  require (leb min_oracle_samples_floor min_oracle_samples) invalid_oracle_config
  require (leb max_stale_slots max_oracle_stale_slots_ceiling) invalid_oracle_config

module _ (rt : Runtime) where
  -- The accounts of both instructions: the configuration, and its authority as the signer.
  unfoldable pub check_authority : ℕ → ProtocolConfig → Result (Unit {0})
  check_authority authority cfg = do
    check_protocol_config rt cfg
    require (cfg.authority == authority) unauthorized_authority

  unfoldable pub set_oracle_config : ℕ → ℕ → ℕ → ℕ → ProtocolConfig → Result ProtocolConfig
  set_oracle_config authority switchboard_queue max_stale_slots min_oracle_samples cfg = do
    check_authority authority cfg
    validate_oracle_bounds max_stale_slots min_oracle_samples
    ok (record cfg {
      switchboard_queue = switchboard_queue;
      max_stale_slots = max_stale_slots;
      min_oracle_samples = min_oracle_samples;
    })

  unfoldable pub set_sas_config : ℕ → ℕ → List ℕ → ProtocolConfig → Result ProtocolConfig
  set_sas_config authority sas_credential sas_schemas cfg = do
    check_authority authority cfg
    ok (record cfg { sas_credential = sas_credential; sas_schemas = sas_schemas })
