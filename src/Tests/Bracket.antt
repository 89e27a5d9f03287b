-- ===== src/Tests/Bracket.antt =====
-- The accounts of a bracket. The keys are the addresses that `chain` derives.
use bracket_chain_programs.Prelude.{
  ℕ, ◌-◌, false, none, [], ◌++◌, replicate, pos, if◌then◌else◌, ◌==◌, ◌+◌,
}
use bracket_chain_programs.State.Payout.{PayoutPreset}
use bracket_chain_programs.State.Tournament.{
  Tournament, TournamentStatus, SettlementMode, SupportedGame,
}
use bracket_chain_programs.State.MatchNode.{MatchNode, MatchStatus, ProposalSource}
use bracket_chain_programs.State.Participant.{Participant}
use bracket_chain_programs.State.ProtocolConfig.{ProtocolConfig}
use bracket_chain_programs.Runtime.{AccountInfo, le_bytes}

abbrev pub organizer : ℕ
organizer = 5

abbrev pub arbitrator : ℕ
arbitrator = 6

abbrev pub alice : ℕ
alice = 1

abbrev pub bob : ℕ
bob = 2

abbrev pub carol : ℕ
carol = 3

abbrev pub vault : ℕ
vault = 642

-- A tournament of the given preset, mode and size in play; its name is empty.
abbrev pub tournament_of : PayoutPreset → SettlementMode → ℕ → Tournament
tournament_of preset mode size = record {
  key = 1_106;
  organizer = organizer;
  name = [];
  token_mint = 9;
  vault = vault;
  entry_fee = 500;
  organizer_deposit = 0;
  organizer_deposit_refunded = false;
  max_participants = size;
  bracket_size = size;
  participant_count = size;
  matches_initialized = size - 1;
  matches_reported = 0;
  total_matches = size - 1;
  registration_deadline = pos 100;
  created_at = pos 10;
  started_at = pos 110;
  completed_at = pos 0;
  status = TournamentStatus.active;
  payout_preset = preset;
  seed_hash = [];
  champion = 0;
  bump = 0;
  vault_bump = 0;
  game = SupportedGame.manual;
  settlement_mode = mode;
  dispute_window_secs = 3_600;
  vrf_randomness_account = 0;
  vrf_commit_slot = 0;
  seed_revealed = false;
  arbitrator = arbitrator;
}

-- The match of the given round and index, between Alice and Bob.
abbrev pub match_of : ℕ → ℕ → MatchNode
match_of round match_index = record {
  key = 611 + round + match_index;
  tournament = 1_106;
  bracket = 0;
  round = round;
  match_index = match_index;
  player_a = alice;
  player_b = bob;
  winner = 0;
  status = MatchStatus.active;
  bye = false;
  bump = 0;
  proposal_source = ProposalSource.no_source;
  proposer = 0;
  proposed_winner = 0;
  proposed_at = pos 0;
  claim_deadline = pos 0;
  disputed = false;
  dispute_reason = 0;
  commitment = none;
  switchboard_feed = 0;
}

-- The final of four, before any of its players is known.
abbrev pub empty_final : MatchNode
empty_final = record (match_of 1 0) { player_a = 0; player_b = 0; status = MatchStatus.pending }

abbrev pub participant_of : ℕ → Participant
participant_of wallet = record {
  key = 1_269 + wallet;
  tournament = 1_106;
  wallet = wallet;
  seed_index = wallet - 1;
  refund_paid = false;
  bump = 0;
  identity_hash = [];
  identity_attestation = 0;
  wins = 0;
  losses = 0;
  points_for = 0;
  points_against = 0;
}

abbrev pub config : ProtocolConfig
config = record {
  key = 1_607;
  authority = 7;
  treasury = 8;
  default_mint = 9;
  fee_bps = 350;
  bump = 0;
  sas_credential = 0;
  sas_schemas = [];
  switchboard_queue = 0;
  max_stale_slots = 100;
  min_oracle_samples = 1;
}

-- The token account at `key` of a wallet, of the tournament's mint.
abbrev pub token_account : ℕ → ℕ → AccountInfo
token_account key wallet = record {
  key = key;
  owner = 99;
  lamports = 0;
  bytes = le_bytes 32 9 ++ le_bytes 32 wallet ++ replicate 101 0;
}

-- The vault holds 1,000 tokens, and no other account any.
abbrev pub balances : ℕ → ℕ
balances k = if k == vault then 1_000 else 0
