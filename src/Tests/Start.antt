-- ===== src/Tests/Start.antt =====
-- The theorems on the start of a tournament, at one of two players with a revealed seed.
use bracket_chain_programs.Prelude.{◌≡◌, refl, true, false, [], ◌∷◌, pos, ◌==◌, if◌then◌else◌}
use bracket_chain_programs.Errors.{Result, ok, err}
use bracket_chain_programs.State.Payout.{winner_takes_all}
use bracket_chain_programs.State.Tournament.{Tournament, TournamentStatus, SettlementMode}
use bracket_chain_programs.Runtime.{le_bytes}
use bracket_chain_programs.Accounts.{check_tournament}
use bracket_chain_programs.Store.{Store, closed, of_participant}
use bracket_chain_programs.Platform.{Keccak}
use bracket_chain_programs.Settlement.Finalize.{trailing_zeros, max_round_of}
use bracket_chain_programs.Seeding.{
  range, mix, absorb, seed_state, next_u64, swap, shuffle, seed_permutation, round0_expected,
}
use bracket_chain_programs.Start.Seed.{
  fallback_seed, fix_seed, doubling, next_power_of_two, size_bracket, open_bracket,
}
use bracket_chain_programs.Start.Descriptor.{
  MatchInitDescriptor, check_entrant, consume_and_check, validate_opponent, validate_round0,
  validate_descriptor_against_seed,
}
use bracket_chain_programs.Start.Handler.{
  node_status, node_of, StartContext, Starting, check_position, check_seeded, create_match,
  init_match, init_matches, start_if_full, count_matches, init_chunk, start_tournament,
}
use bracket_chain_programs.Tests.Ledger.{chain}
use bracket_chain_programs.Tests.Platform.{system, create_account}
use bracket_chain_programs.Tests.Bracket.{organizer, alice, bob, tournament_of, participant_of}

abbrev pub hash : Keccak
hash chunks = []

abbrev pub accounts : Store
accounts k =
    if k == 1_270
    then record { owner = 42; lamports = 0; contents = of_participant (participant_of alice) }
    else if k == 1_271
    then record { owner = 42; lamports = 0; contents = of_participant (participant_of bob) }
    else record { owner = 0; lamports = 0; contents = closed }

abbrev pub registered : Tournament
registered = record (tournament_of winner_takes_all SettlementMode.player_reported 2) {
  status = TournamentStatus.registration;
  bracket_size = 0;
  total_matches = 0;
  matches_initialized = 0;
  vrf_randomness_account = 50;
  seed_revealed = true;
  seed_hash = range 0 32;
}

abbrev opened : Tournament
opened = record registered {
  status = TournamentStatus.pending_bracket_init;
  bracket_size = 2;
  total_matches = 1;
}

abbrev pub the_final : MatchInitDescriptor
the_final = record {
  bracket = 0;
  round = 0;
  match_index = 0;
  bump = 0;
  player_a = bob;
  player_b = alice;
  bye = false;
}

abbrev pub starting : Starting
starting = record { tournament = registered; store = accounts; log = [] }

abbrev pub context : StartContext
context = record {
  organizer = organizer;
  slot_hashes = [];
  remaining_accounts = 611 ∷ 1_271 ∷ 1_270 ∷ [];
  now = pos 110;
}

abbrev pub starting_or : Result Starting → Starting
starting_or (ok s) = s
starting_or (err e) = starting

abbrev pub started : Starting
started = starting_or (start_tournament chain system hash context (the_final ∷ []) starting)

pub organizer_started :
    start_tournament chain system hash context (the_final ∷ []) starting ≡ ok started
unfolding start_tournament check_tournament le_bytes open_bracket fix_seed fallback_seed
    size_bracket next_power_of_two doubling init_chunk seed_permutation range shuffle swap next_u64
    absorb seed_state mix init_matches init_match check_position max_round_of trailing_zeros
    check_seeded validate_descriptor_against_seed validate_round0 round0_expected consume_and_check
    check_entrant validate_opponent create_match node_of node_status create_account count_matches
    start_if_full
organizer_started = refl
