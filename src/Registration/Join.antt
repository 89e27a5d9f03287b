-- ===== src/Registration/Join.antt =====
-- join_tournament.rs.
use bracket_chain_programs.Prelude.{
  ℕ, false, Option, List, [], ◌∷◌, ltb, ltb_ℤ, ◌==◌, if◌then◌else◌, get_elem?, replicate,
  checked_add, ℤ,
}
use bracket_chain_programs.Errors.{
  Result, ok, code, panicked, invalid_token_mint, unauthorized_authority, attestation_required,
  not_in_registration, registration_closed, tournament_full, arithmetic_overflow, ◌>>=◌, ◌>>◌,
  require, ok_or,
}
use bracket_chain_programs.Constants.{participant_seed, vault_seed}
use bracket_chain_programs.State.{default_key}
use bracket_chain_programs.State.Tournament.{Tournament, SupportedGame, is_registration, is_manual}
use bracket_chain_programs.State.Participant.{Participant}
use bracket_chain_programs.State.ProtocolConfig.{ProtocolConfig}
use bracket_chain_programs.Events.{emit, participant_registered}
use bracket_chain_programs.Runtime.{
  Runtime, AccountInfo, TokenProgram, token_transfer, check_seeds, le_bytes,
}
use bracket_chain_programs.Accounts.{check_tournament, check_protocol_config}
use bracket_chain_programs.Store.{write, of_participant}
use bracket_chain_programs.Platform.{SystemProgram, Finder}
use bracket_chain_programs.Refund.Process.{TokenAccount}
use bracket_chain_programs.Registration.Init.{init_account}
use bracket_chain_programs.Registration.Create.{Registering}
use bracket_chain_programs.Registration.Attestation.{validate_attestation}

-- The accounts beside the tournament, the participant's by its address, and the clock.
pub record JoinContext : Type 0 where
  pub player : ℕ
  pub protocol_config : ProtocolConfig
  pub participant : ℕ
  pub player_token_account : TokenAccount
  pub vault : ℕ
  pub game_identity_attestation : Option AccountInfo
  pub now : ℤ

-- 8 bytes of discriminator and the fields of `Participant`.
abbrev pub participant_space : ℕ
participant_space = 150

-- `game as usize`
abbrev pub game_discriminant : SupportedGame → ℕ
game_discriminant SupportedGame.manual = 0
game_discriminant SupportedGame.dota2 = 1
game_discriminant SupportedGame.cs2_faceit = 2
game_discriminant SupportedGame.valorant = 3
game_discriminant SupportedGame.lo_l = 4

-- The identity that the game asks for: the fingerprint, and the attestation's address.
unfoldable pub identity_of : JoinContext → SupportedGame → Result (List ℕ × ℕ)
identity_of c game = if is_manual game then ok (replicate 32 0, default_key) else do
  attestation ← ok_or c.game_identity_attestation (code attestation_required)
  schema ← ok_or (get_elem? c.protocol_config.sas_schemas (game_discriminant game)) panicked
  validate_attestation attestation c.player c.protocol_config.sas_credential schema c.now

-- The checks of the tournament.
unfoldable pub check_open : Tournament → ℤ → Result (Unit {0})
check_open t now = do
  require (is_registration t.status) not_in_registration
  require (ltb_ℤ now t.registration_deadline) registration_closed
  require (ltb t.participant_count t.max_participants) tournament_full

-- The participant as it is written; the statistics are zero in a new account.
unfoldable pub participant_from : JoinContext → Tournament → List ℕ × ℕ → ℕ → Participant
participant_from c t identity bump = record {
  key = c.participant;
  tournament = t.key;
  wallet = c.player;
  seed_index = t.participant_count;
  refund_paid = false;
  bump = bump;
  identity_hash = identity.0;
  identity_attestation = identity.1;
  wins = 0;
  losses = 0;
  points_for = 0;
  points_against = 0;
}

module _ (tp : TokenProgram) where
  -- The handler, on the store with the account that was created.
  unfoldable pub register :
      JoinContext
      → ℕ
      → Tournament
      → Registering tp.Ledger
      → Result (Tournament × Registering tp.Ledger)
  register c bump t s = do
    identity ← identity_of c t.game
    check_open t c.now
    ledger ← token_transfer tp s.ledger c.player_token_account.key c.vault c.player t.entry_fee
    count ← ok_or (checked_add 16 t.participant_count 1) (code arithmetic_overflow)
    ok (
      record t { participant_count = count },
      record {
        store = write s.store c.participant (record (s.store c.participant) {
          contents = of_participant (participant_from c t identity bump);
        });
        ledger = ledger;
        log = emit (participant_registered t.key c.player t.participant_count) s.log;
      },
    )

module _ (rt : Runtime) (finder : Finder rt) (tp : TokenProgram) (sys : SystemProgram) where
  unfoldable pub join_tournament :
      JoinContext → Tournament → Registering tp.Ledger → Result (Tournament × Registering tp.Ledger)
  join_tournament c t s = do
    check_tournament rt t
    check_protocol_config rt c.protocol_config
    (store, bump) ←
        init_account rt finder sys s.store c.player
          (participant_seed ∷ le_bytes 32 t.key ∷ le_bytes 32 c.player ∷ []) c.participant
          participant_space
    require (c.player_token_account.mint == t.token_mint) invalid_token_mint
    require (c.player_token_account.owner == c.player) unauthorized_authority
    check_seeds rt (vault_seed ∷ le_bytes 32 t.key ∷ []) t.vault_bump c.vault
    register tp c bump t (record s { store = store })
