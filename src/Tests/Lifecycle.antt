-- ===== src/Tests/Lifecycle.antt =====
-- The life of a tournament of two that starts at once, and is then cancelled with its final pending.
use bracket_chain_programs.Prelude.{◌≡◌, refl, [], ◌∷◌, pos}
use bracket_chain_programs.Errors.{ok}
use bracket_chain_programs.State.Tournament.{Tournament, TournamentStatus}
use bracket_chain_programs.Events.{Log, emit, tournament_partially_cancelled}
use bracket_chain_programs.Runtime.{le_bytes}
use bracket_chain_programs.Accounts.{check_tournament}
use bracket_chain_programs.Refund.Handlers.{partial_cancel_tournament}
use bracket_chain_programs.Settlement.Finalize.{trailing_zeros, max_round_of}
use bracket_chain_programs.Seeding.{
  range, mix, absorb, seed_state, next_u64, swap, shuffle, seed_permutation, round0_expected,
}
use bracket_chain_programs.Start.Seed.{
  fallback_seed, fix_seed, doubling, next_power_of_two, size_bracket, open_bracket,
}
use bracket_chain_programs.Start.Descriptor.{
  check_entrant, consume_and_check, validate_opponent, validate_round0,
  validate_descriptor_against_seed,
}
use bracket_chain_programs.Start.Handler.{
  node_status, node_of, check_position, check_seeded, create_match, init_match, init_matches,
  start_if_full, count_matches, init_chunk, start_tournament,
}
use bracket_chain_programs.Tests.Platform.{create_account}
use bracket_chain_programs.Lifecycle.{Leads, by_start, by_partial_cancel, untouched, after}
use bracket_chain_programs.Lifecycle.Refines.{History-refines}
use bracket_chain_programs.Tests.Ledger.{tokens, chain}
use bracket_chain_programs.Tests.Platform.{system, service, finder}
use bracket_chain_programs.Tests.Bracket.{organizer}
use bracket_chain_programs.Tests.Start.{
  hash, the_final, context, starting, started, organizer_started,
}

abbrev stopped : Tournament
stopped = record (started.tournament) { status = TournamentStatus.partial_cancelled }

abbrev stop_log : Log
stop_log = emit (tournament_partially_cancelled stopped.key organizer (pos 200)) []

organizer_stopped :
    partial_cancel_tournament chain organizer (pos 200) started.tournament []
    ≡ ok (stopped, stop_log)
unfolding partial_cancel_tournament start_tournament check_tournament le_bytes open_bracket fix_seed
    fallback_seed size_bracket next_power_of_two doubling init_chunk seed_permutation range shuffle
    swap next_u64 absorb seed_state mix init_matches init_match check_position max_round_of
    trailing_zeros check_seeded validate_descriptor_against_seed validate_round0 round0_expected
    consume_and_check check_entrant validate_opponent create_match node_of node_status
    create_account count_matches start_if_full
organizer_stopped = refl

History-refines_example : Leads TournamentStatus.registration TournamentStatus.partial_cancelled
History-refines_example = History-refines chain finder tokens system hash service (
    after (after untouched (by_start context (the_final ∷ []) starting started organizer_started)) (
      by_partial_cancel organizer (pos 200) started.tournament stopped [] stop_log
        organizer_stopped))
