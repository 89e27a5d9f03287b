-- ===== src/State/Tournament.antt =====
-- programs/bracket-chain/src/state/tournament.rs and game.rs: the tournament and its enumerations.
use bracket_chain_programs.Prelude.{ℕ, Bool, true, false, List}
use bracket_chain_programs.Prelude.{ℤ}
use bracket_chain_programs.State.Payout.{PayoutPreset}

pub data SupportedGame : Type 0 where
  manual dota2 cs2_faceit valorant lo_l : SupportedGame

pub data SettlementMode : Type 0 where
  organizer_only player_reported oracle : SettlementMode

pub data TournamentStatus : Type 0 where
  registration pending_bracket_init active completed cancelled partial_cancelled : TournamentStatus

pub record Tournament : Type 0 where
  pub key : ℕ
  pub organizer : ℕ
  pub name : List ℕ
  pub token_mint : ℕ
  pub vault : ℕ
  pub entry_fee : ℕ
  pub organizer_deposit : ℕ
  pub organizer_deposit_refunded : Bool
  pub max_participants : ℕ
  pub bracket_size : ℕ
  pub participant_count : ℕ
  pub matches_initialized : ℕ
  pub matches_reported : ℕ
  pub total_matches : ℕ
  pub registration_deadline : ℤ
  pub created_at : ℤ
  pub started_at : ℤ
  pub completed_at : ℤ
  pub status : TournamentStatus
  pub payout_preset : PayoutPreset
  pub seed_hash : List ℕ
  pub champion : ℕ
  pub bump : ℕ
  pub vault_bump : ℕ
  pub game : SupportedGame
  pub settlement_mode : SettlementMode
  pub dispute_window_secs : ℕ
  pub vrf_randomness_account : ℕ
  pub vrf_commit_slot : ℕ
  pub seed_revealed : Bool
  pub arbitrator : ℕ

-- The comparisons of a status, a game or a mode with a constant.
abbrev pub is_registration : TournamentStatus → Bool
is_registration registration = true
is_registration _ = false

abbrev pub is_pending_bracket_init : TournamentStatus → Bool
is_pending_bracket_init pending_bracket_init = true
is_pending_bracket_init _ = false

abbrev pub is_active : TournamentStatus → Bool
is_active active = true
is_active _ = false

abbrev pub is_completed : TournamentStatus → Bool
is_completed completed = true
is_completed _ = false

abbrev pub is_cancelled : TournamentStatus → Bool
is_cancelled cancelled = true
is_cancelled _ = false

abbrev pub is_partial_cancelled : TournamentStatus → Bool
is_partial_cancelled partial_cancelled = true
is_partial_cancelled _ = false

abbrev pub is_organizer_only : SettlementMode → Bool
is_organizer_only organizer_only = true
is_organizer_only _ = false

abbrev pub is_oracle_mode : SettlementMode → Bool
is_oracle_mode oracle = true
is_oracle_mode _ = false

abbrev pub is_manual : SupportedGame → Bool
is_manual manual = true
is_manual _ = false
