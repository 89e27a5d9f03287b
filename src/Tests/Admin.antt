-- ===== src/Tests/Admin.antt =====
-- The theorems on the authority's instructions: a configuration of 107 bytes and a tournament of 208
-- that grow, and a new configuration.
use bracket_chain_programs.Prelude.{
  take, ◌≢◌, ℕ, ◌+◌, ◌-◌, ◌≡◌, refl, ◌↔◌, some, [], ◌∷◌, ◌++◌, arith, length, replicate, bytes_eq,
}
use bracket_chain_programs.Errors.{Result, ok, err, code, migration_not_needed}
use bracket_chain_programs.State.ProtocolConfig.{ProtocolConfig}
use bracket_chain_programs.Runtime.{AccountInfo, key_at, le_bytes}
use bracket_chain_programs.Accounts.{check_protocol_config}
use bracket_chain_programs.Store.{Store, closed}
use bracket_chain_programs.Oracle.Config.{check_authority}
use bracket_chain_programs.Registration.Init.{find_bump, init_account}
use bracket_chain_programs.Admin.Initialize.{InitializeContext, config_from, initialize_protocol}
use bracket_chain_programs.Admin.Migrate.{
  Resizer, top_up, grow, check_kind, migrate_protocol_config, migrate_v1_tournament,
}
use bracket_chain_programs.Admin.Grown.{
  IsGrown, migrate_protocol_config-IsGrown, migrate_v1_tournament-IsGrown,
}
use bracket_chain_programs.Admin.Configured.{IsInitial, initialize_protocol-authority}
use bracket_chain_programs.Tests.Ledger.{chain}
use bracket_chain_programs.Tests.Platform.{system, create_account, finder, find_address}
use bracket_chain_programs.Tests.Bracket.{config}

abbrev paid : ℕ → AccountInfo → ℕ → AccountInfo
paid from ai n = record ai { lamports = ai.lamports + n }

abbrev enlarged : AccountInfo → ℕ → AccountInfo
enlarged ai size = record ai { bytes = ai.bytes ++ replicate (size - length ai.bytes) 0 }

transferred_lem :
    (from : ℕ) (ai ai' : AccountInfo) (n : ℕ)
    → some (paid from ai n) ≡ some ai'
    → ai' ≡ record ai { lamports = ai.lamports + n }
transferred_lem from ai ai' n h = ground (arith, h)

reallocated_lem :
    (ai ai' : AccountInfo) (size : ℕ)
    → some (enlarged ai size) ≡ some ai'
    → ai' ≡ record ai { bytes = ai.bytes ++ replicate (size - length ai.bytes) 0 }
reallocated_lem ai ai' size h = ground (arith, h)

abbrev resizer : Resizer
resizer = record {
  config_discriminator = 207 ∷ 91 ∷ 250 ∷ 28 ∷ 152 ∷ 179 ∷ 215 ∷ 209 ∷ [];
  tournament_discriminator = 175 ∷ 139 ∷ 119 ∷ 242 ∷ 115 ∷ 194 ∷ 57 ∷ 92 ∷ [];
  transfer_lamports = λ from ai n. some (paid from ai n);
  realloc = λ ai size. some (enlarged ai size);
  transferred = transferred_lem;
  reallocated = reallocated_lem;
}

abbrev old_config : AccountInfo
old_config = record {
  key = 1_607;
  owner = 42;
  lamports = 3_587;
  bytes = resizer.config_discriminator ++ le_bytes 32 7 ++ replicate 67 1;
}

abbrev new_config : AccountInfo
new_config = enlarged (paid 7 old_config 232) 339

config_migrated : migrate_protocol_config system resizer chain finder 7 old_config ≡ ok new_config
unfolding migrate_protocol_config find_bump find_address check_kind grow top_up le_bytes bytes_eq
config_migrated = refl

migrate_protocol_config-IsGrown_example :
    (42 ≡ chain.program_id)
    × (key_at old_config 8 ≡ config.authority)
    × IsGrown system resizer old_config new_config 339
    × (migrate_protocol_config system resizer chain finder 7 new_config
        ≡ err (code migration_not_needed))
migrate_protocol_config-IsGrown_example =
    migrate_protocol_config-IsGrown system resizer chain finder 7 old_config new_config
      config_migrated

abbrev old_tournament : AccountInfo
old_tournament = record {
  key = 1_106;
  owner = 42;
  lamports = 5_000;
  bytes = resizer.tournament_discriminator ++ replicate 200 1;
}

abbrev new_tournament : AccountInfo
new_tournament = enlarged old_tournament 364

tournament_migrated :
    migrate_v1_tournament system resizer chain 7 config old_tournament ≡ ok new_tournament
unfolding migrate_v1_tournament check_protocol_config check_kind grow top_up bytes_eq
tournament_migrated = refl

migrate_v1_tournament-IsGrown_example :
    (config.authority ≡ 7)
    × (old_tournament.owner ≡ 42)
    × (take 8 old_tournament.bytes ≡ resizer.tournament_discriminator)
    × IsGrown system resizer old_tournament new_tournament 364
    × (migrate_v1_tournament system resizer chain 7 config new_tournament
        ≡ err (code migration_not_needed))
migrate_v1_tournament-IsGrown_example =
    migrate_v1_tournament-IsGrown system resizer chain 7 config old_tournament new_tournament
      tournament_migrated

abbrev initializing : InitializeContext
initializing = record { authority = 7; protocol_config = 1_607; treasury = 8; default_mint = 9 }

abbrev nothing_there : Store
nothing_there k = record { owner = 0; lamports = 0; contents = closed }

abbrev store_or : Result (ProtocolConfig × Store) → Store
store_or (ok r) = r.1
store_or (err e) = nothing_there

abbrev initialized : Store
initialized = store_or (initialize_protocol chain finder system initializing nothing_there)

protocol_initialized :
    initialize_protocol chain finder system initializing nothing_there
    ≡ ok (config_from initializing 0, initialized)
unfolding initialize_protocol init_account find_bump find_address create_account
protocol_initialized = refl

initialize_protocol-authority_example :
    ((nothing_there 1_607).contents ≡ closed)
    × ((initialized 1_607).owner ≡ 42)
    × ((k : ℕ)
        → k ≢ 1_607
        → ((initialized k).owner ≡ (nothing_there k).owner)
          × ((initialized k).contents ≡ (nothing_there k).contents))
    × IsInitial chain finder system initializing (config_from initializing 0)
    × (check_protocol_config chain (config_from initializing 0) ≡ ok tt)
    × ((signer : ℕ)
        → (check_authority chain signer (config_from initializing 0) ≡ ok tt)
          ↔ (signer ≡ initializing.authority))
initialize_protocol-authority_example =
    initialize_protocol-authority chain finder system initializing nothing_there initialized
      (config_from initializing 0) protocol_initialized
