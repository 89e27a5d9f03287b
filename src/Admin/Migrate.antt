-- ===== src/Admin/Migrate.antt =====
-- migrate_protocol_config.rs and migrate_v1_tournament.rs: an account of an older layout is paid up
-- and grown with zeros.
use bracket_chain_programs.Prelude.{
  ℕ, ◌+◌, ◌-◌, ◌≡◌, Option, some, List, [], ◌∷◌, ◌++◌, ltb, leb, ◌==◌, if◌then◌else◌, length, take,
  replicate, bytes_eq,
}
use bracket_chain_programs.Errors.{
  Result, ok, cpi_failed, unauthorized_authority, invalid_tournament_account, migration_not_needed,
  BracketChainError, ◌>>=◌, ◌>>◌, require, ok_or,
}
use bracket_chain_programs.Constants.{protocol_config_seed}
use bracket_chain_programs.State.ProtocolConfig.{ProtocolConfig}
use bracket_chain_programs.Runtime.{Runtime, AccountInfo, key_at}
use bracket_chain_programs.Accounts.{check_protocol_config}
use bracket_chain_programs.Platform.{SystemProgram, Finder}
use bracket_chain_programs.Registration.Init.{find_bump}
use bracket_chain_programs.Registration.Create.{tournament_space}
use bracket_chain_programs.Admin.Initialize.{protocol_config_space}

-- What the migrations call: a transfer of lamports by the system program from a signer to an
-- account, and `realloc(size, true)` of the runtime, which fills what it adds with zeros. The
-- discriminators of the two account types are chosen by the account framework.
pub record Resizer : Type 0 where
  pub config_discriminator : List ℕ
  pub tournament_discriminator : List ℕ
  pub transfer_lamports : ℕ → AccountInfo → ℕ → Option AccountInfo
  pub realloc : AccountInfo → ℕ → Option AccountInfo
  pub transferred :
      (from : ℕ) (ai ai' : AccountInfo) (n : ℕ)
      → transfer_lamports from ai n ≡ some ai'
      → ai' ≡ record ai { lamports = ai.lamports + n }
  pub reallocated :
      (ai ai' : AccountInfo) (size : ℕ)
      → realloc ai size ≡ some ai'
      → ai' ≡ record ai { bytes = ai.bytes ++ replicate (size - length ai.bytes) 0 }

module _ (sys : SystemProgram) (resizer : Resizer) where
  -- The payment of what the larger account's rent lacks.
  unfoldable pub top_up : ℕ → AccountInfo → ℕ → Result AccountInfo
  top_up authority ai new_size =
      let delta = sys.minimum_balance new_size - ai.lamports in
      if ltb 0 delta then ok_or (resizer.transfer_lamports authority ai delta) cpi_failed else ok ai

  -- The part that both handlers end with.
  unfoldable pub grow : ℕ → AccountInfo → ℕ → Result AccountInfo
  grow authority ai new_size = do
    require (ltb (length ai.bytes) new_size) migration_not_needed
    paid ← top_up authority ai new_size
    ok_or (resizer.realloc paid new_size) cpi_failed

  -- The owner and the discriminator of an account that is not deserialized.
  unfoldable pub check_kind : ℕ → AccountInfo → List ℕ → ℕ → BracketChainError → Result (Unit {0})
  check_kind program_id ai discriminator least failure = do
    require (ai.owner == program_id) failure
    require (leb least (length ai.bytes)) failure
    require (bytes_eq (take 8 ai.bytes) discriminator) failure

  unfoldable pub migrate_protocol_config :
      (rt : Runtime) → Finder rt → ℕ → AccountInfo → Result AccountInfo
  migrate_protocol_config rt finder authority ai = do
    bump ← find_bump rt finder (protocol_config_seed ∷ []) ai.key
    check_kind rt.program_id ai resizer.config_discriminator 40 unauthorized_authority
    require (key_at ai 8 == authority) unauthorized_authority
    grow authority ai protocol_config_space

  unfoldable pub migrate_v1_tournament :
      Runtime → ℕ → ProtocolConfig → AccountInfo → Result AccountInfo
  migrate_v1_tournament rt authority cfg ai = do
    require (cfg.authority == authority) unauthorized_authority
    check_protocol_config rt cfg
    check_kind rt.program_id ai resizer.tournament_discriminator 8 invalid_tournament_account
    grow authority ai tournament_space
