-- ===== src/Admin/Initialize.antt =====
-- initialize_protocol.rs.
use bracket_chain_programs.Prelude.{ℕ, [], ◌∷◌, replicate}
use bracket_chain_programs.Errors.{Result, ok, ◌>>=◌}
use bracket_chain_programs.Constants.{protocol_config_seed, protocol_fee_bps}
use bracket_chain_programs.State.{default_key}
use bracket_chain_programs.State.ProtocolConfig.{ProtocolConfig}
use bracket_chain_programs.Runtime.{Runtime}
use bracket_chain_programs.Store.{Store}
use bracket_chain_programs.Platform.{SystemProgram, Finder}
use bracket_chain_programs.Registration.Init.{init_account}

-- 8 bytes of discriminator and the fields of `ProtocolConfig`.
abbrev pub protocol_config_space : ℕ
protocol_config_space = 339

-- The accounts, the configuration's by its address.
pub record InitializeContext : Type 0 where
  pub authority : ℕ
  pub protocol_config : ℕ
  pub treasury : ℕ
  pub default_mint : ℕ

-- The configuration as it is written; the fields that the handler does not set are zero in a new
-- account.
unfoldable pub config_from : InitializeContext → ℕ → ProtocolConfig
config_from c bump = record {
  key = c.protocol_config;
  authority = c.authority;
  treasury = c.treasury;
  default_mint = c.default_mint;
  fee_bps = protocol_fee_bps;
  bump = bump;
  sas_credential = default_key;
  sas_schemas = replicate 5 default_key;
  switchboard_queue = default_key;
  max_stale_slots = 0;
  min_oracle_samples = 0;
}

module _ (rt : Runtime) (finder : Finder rt) (sys : SystemProgram) where
  unfoldable pub initialize_protocol : InitializeContext → Store → Result (ProtocolConfig × Store)
  initialize_protocol c store = do
    (store', bump) ←
        init_account rt finder sys store c.authority (protocol_config_seed ∷ []) c.protocol_config
          protocol_config_space
    ok (config_from c bump, store')
