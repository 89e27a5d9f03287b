-- ===== src/Registration/Create.antt =====
-- create_tournament.rs.
use bracket_chain_programs.Prelude.{
  ℕ, Bool, true, false, not, Option, none, some, List, [], ◌∷◌, ltb, leb, ltb_ℤ, ◌==◌,
  if◌then◌else◌, length, ℤ, pos, replicate,
}
use bracket_chain_programs.Errors.{
  Result, ok, code, cpi_failed, name_too_long, game_not_yet_supported, min_participants_not_met,
  max_participants_exceeded, preset_exceeds_participants, registration_closed, invalid_vault,
  invalid_token_mint, unauthorized_authority, ◌>>=◌, ◌>>◌, require, ok_or,
}
use bracket_chain_programs.Constants.{
  min_participants_allowed, max_participants_allowed, max_tournament_name_len, tournament_seed,
  vault_seed,
}
use bracket_chain_programs.State.{default_key}
use bracket_chain_programs.State.Payout.{
  PayoutPreset, winner_takes_all, standard, deep, custom, validate_custom, min_participants,
}
use bracket_chain_programs.State.Tournament.{
  Tournament, TournamentStatus, SupportedGame, SettlementMode,
}
use bracket_chain_programs.State.ProtocolConfig.{ProtocolConfig}
use bracket_chain_programs.Events.{Log, emit, tournament_created}
use bracket_chain_programs.Runtime.{Runtime, TokenProgram, token_transfer, le_bytes}
use bracket_chain_programs.Accounts.{check_protocol_config}
use bracket_chain_programs.Store.{Store}
use bracket_chain_programs.Platform.{SystemProgram, Finder, TokenCreator}
use bracket_chain_programs.Refund.Process.{TokenAccount}
use bracket_chain_programs.Registration.Init.{find_bump, init_account}

-- The arguments of the instruction.
pub record CreateArgs : Type 0 where
  pub name : List ℕ
  pub entry_fee : ℕ
  pub max_participants : ℕ
  pub payout_preset : PayoutPreset
  pub registration_deadline : ℤ
  pub organizer_deposit : ℕ
  pub game : SupportedGame
  pub settlement_mode : SettlementMode
  pub dispute_window_secs : ℕ

-- Its accounts, the two that it creates by their addresses, and the clock.
pub record CreateContext : Type 0 where
  pub organizer : ℕ
  pub protocol_config : ProtocolConfig
  pub token_mint : ℕ
  pub tournament : ℕ
  pub vault : ℕ
  pub organizer_token_account : Option TokenAccount
  pub now : ℤ

-- What the instructions of registration write beside records of their own.
pub record Registering (L : Type 0) : Type 0 where
  pub store : Store
  pub ledger : L
  pub log : Log

-- 8 bytes of discriminator and the fields of `Tournament`.
abbrev pub tournament_space : ℕ
tournament_space = 364

abbrev pub is_supported : SupportedGame → Bool
is_supported SupportedGame.manual = true
is_supported SupportedGame.dota2 = true
is_supported SupportedGame.cs2_faceit = true
is_supported SupportedGame.valorant = false
is_supported SupportedGame.lo_l = false

abbrev pub payout_preset_discriminator : PayoutPreset → ℕ
payout_preset_discriminator winner_takes_all = 0
payout_preset_discriminator standard = 1
payout_preset_discriminator deep = 2
payout_preset_discriminator (custom slots) = 3

-- The checks of the arguments, against the clock.
unfoldable pub check_args : CreateArgs → ℤ → Result (Unit {0})
check_args a now = do
  require (leb (length a.name) max_tournament_name_len) name_too_long
  require (is_supported a.game) game_not_yet_supported
  require (leb min_participants_allowed a.max_participants) min_participants_not_met
  require (leb a.max_participants max_participants_allowed) max_participants_exceeded
  validate_custom a.payout_preset
  require (leb (min_participants a.payout_preset) a.max_participants) preset_exceeds_participants
  require (ltb_ℤ now a.registration_deadline) registration_closed

-- The tournament as it is written, with the bumps of its two addresses.
unfoldable pub tournament_from : CreateContext → CreateArgs → ℕ → ℕ → Tournament
tournament_from c a bump vault_bump = record {
  key = c.tournament;
  organizer = c.organizer;
  name = a.name;
  token_mint = c.token_mint;
  vault = c.vault;
  entry_fee = a.entry_fee;
  organizer_deposit = a.organizer_deposit;
  organizer_deposit_refunded = false;
  max_participants = a.max_participants;
  bracket_size = 0;
  participant_count = 0;
  matches_initialized = 0;
  matches_reported = 0;
  total_matches = 0;
  registration_deadline = a.registration_deadline;
  created_at = c.now;
  started_at = pos 0;
  completed_at = pos 0;
  status = TournamentStatus.registration;
  payout_preset = a.payout_preset;
  seed_hash = replicate 32 0;
  champion = default_key;
  bump = bump;
  vault_bump = vault_bump;
  game = a.game;
  settlement_mode = a.settlement_mode;
  dispute_window_secs = a.dispute_window_secs;
  vrf_randomness_account = default_key;
  vrf_commit_slot = 0;
  seed_revealed = false;
  arbitrator = c.organizer;
}

-- The constraints on the organizer's token account, where it is given.
unfoldable pub check_funding : CreateContext → Option TokenAccount → Result (Unit {0})
check_funding c none = ok tt
check_funding c (some ata) = do
  require (ata.mint == c.token_mint) invalid_token_mint
  require (ata.owner == c.organizer) unauthorized_authority

module _ (tp : TokenProgram) where
  unfoldable pub fund_deposit : CreateContext → ℕ → tp.Ledger → Result tp.Ledger
  fund_deposit c organizer_deposit ledger =
      if not (ltb 0 organizer_deposit)
      then ok ledger
      else ok_or c.organizer_token_account (code invalid_vault) >>= λ ata.
          token_transfer tp ledger ata.key c.vault c.organizer organizer_deposit

module _ (rt : Runtime) (finder : Finder rt) (tp : TokenProgram) (sys : SystemProgram)
    (creator : TokenCreator tp) where
  unfoldable pub create_tournament :
      CreateContext
      → CreateArgs
      → Registering tp.Ledger
      → Result (Tournament × Registering tp.Ledger)
  create_tournament c a s = do
    check_protocol_config rt c.protocol_config
    (store, bump) ←
        init_account rt finder sys s.store c.organizer
          (tournament_seed ∷ le_bytes 32 c.organizer ∷ a.name ∷ []) c.tournament tournament_space
    vault_bump ← find_bump rt finder (vault_seed ∷ le_bytes 32 c.tournament ∷ []) c.vault
    (ledger, store') ←
        ok_or
          (creator.create_token_account s.ledger store c.organizer c.vault c.token_mint
            c.tournament)
          cpi_failed
    check_funding c c.organizer_token_account
    check_args a c.now
    ledger' ← fund_deposit tp c a.organizer_deposit ledger
    ok (
      tournament_from c a bump vault_bump,
      record {
        store = store';
        ledger = ledger';
        log =
            emit
              (tournament_created c.tournament c.organizer c.token_mint a.entry_fee
                a.organizer_deposit a.max_participants (payout_preset_discriminator a.payout_preset)
                a.registration_deadline a.name)
              s.log;
      },
    )
