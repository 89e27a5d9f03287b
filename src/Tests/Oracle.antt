-- ===== src/Tests/Oracle.antt =====
-- The theorems on the oracle's instructions, at a final between Alice and Bob: the organizer commits
-- the match and binds a feed, a stranger relays that the feed names Bob, and Bob confirms at once.
use bracket_chain_programs.Prelude.{
  ℕ, ◌≡◌, refl, ◌≢◌, ◌⊎◌, ◌≤◌, ◌↔◌, none, some, List, [], ◌∷◌, arith, pos, ◌≤ℤ◌, ◌+ℤ◌, false,
  bytes_eq,
}
use bracket_chain_programs.Errors.{Result, ok, err}
use bracket_chain_programs.Constants.{switchboard_on_demand_devnet}
use bracket_chain_programs.State.Payout.{
  winner_takes_all, basis_points, count_funded, placement_count,
}
use bracket_chain_programs.State.Tournament.{Tournament, SettlementMode}
use bracket_chain_programs.State.MatchNode.{MatchNode, MatchCommitment}
use bracket_chain_programs.State.ProtocolConfig.{ProtocolConfig}
use bracket_chain_programs.Events.{Log}
use bracket_chain_programs.Runtime.{AccountInfo, validate_token_account, le_bytes}
use bracket_chain_programs.Accounts.{
  check_tournament, check_match, check_participant, check_protocol_config, check_vault,
}
use bracket_chain_programs.Settlement.Split.{
  share_of, floor_amounts, add_lower, absorb_remainder, split_placements,
}
use bracket_chain_programs.Settlement.Advance.{credit_match_stats}
use bracket_chain_programs.Settlement.Prizes.{
  check_placements, check_runner_up, pay_out, pay_one, pay_placements, pay_fee, close_distribution,
  distribute_prizes,
}
use bracket_chain_programs.Settlement.Finalize.{
  Settlement, trailing_zeros, max_round_of, is_final_of, finish_final, report_match, finalize_match,
}
use bracket_chain_programs.Proposal.Envelope.{fill_envelope}
use bracket_chain_programs.Proposal.Finalizers.{
  FinalizeContext, Players, settle, settle_and_credit, confirm, check_bracket_accounts,
  check_players, check_pool_accounts, check_all, confirm_result,
}
use bracket_chain_programs.Proposal.Calls.{confirms, run_finalizer}
use bracket_chain_programs.Proposal.Safety.{before}
use bracket_chain_programs.Proposal.Steps.{
  feed_bound, oracle_proposed, finalized, Reach, untouched, after,
}
use bracket_chain_programs.Proposal.Lifecycle.{Reach-commitment}
use bracket_chain_programs.Oracle.Config.{
  validate_oracle_bounds, check_authority, set_oracle_config,
}
use bracket_chain_programs.Oracle.Lobby.{
  CommitContext, BindContext, commit_lobby, check_feed, bind_feed, check_commit_accounts,
  commit_match_lobby, check_bind_accounts, bind_match_feed,
}
use bracket_chain_programs.Oracle.Propose.{
  OracleContext, resolve_oracle_winner, read_feed, propose_oracle, propose_result_oracle,
}
use bracket_chain_programs.Oracle.Outcome.{IsOracleProposal}
use bracket_chain_programs.Oracle.Window.{oracle_window, oracle_winner_confirms}
use bracket_chain_programs.Oracle.Bounds.{configured, set_oracle_config_iff, oracle_proposal-fresh}
use bracket_chain_programs.Tests.Ledger.{tokens, chain, transfer, move}
use bracket_chain_programs.Tests.Platform.{service, value_of, slots_of}
use bracket_chain_programs.Switchboard.{count_fresh}
use bracket_chain_programs.Tests.Bracket.{
  organizer, alice, bob, vault, config, tournament_of, match_of, participant_of, token_account,
  balances,
}

abbrev oracle_tournament : Tournament
oracle_tournament = tournament_of winner_takes_all SettlementMode.oracle 2

-- The settings, as the authority sets them.
abbrev settings : ProtocolConfig
settings = configured 31 150 2 config

authority_allowed : check_authority chain 7 config ≡ ok tt
unfolding check_authority check_protocol_config
authority_allowed = refl

settings_set : set_oracle_config chain 7 31 150 2 config ≡ ok settings
unfolding set_oracle_config check_authority check_protocol_config validate_oracle_bounds
settings_set = refl

set_oracle_config_iff_example :
    (set_oracle_config chain 7 31 150 0 config ≡ ok (configured 31 150 0 config))
    ↔ ((1 ≤ 0) × (150 ≤ 9_000))
set_oracle_config_iff_example = set_oracle_config_iff chain 7 31 150 0 config authority_allowed

abbrev match_or : MatchNode → Result (MatchNode × Log) → MatchNode
match_or m (ok r) = r.0
match_or m (err e) = m

abbrev log_or : Result (MatchNode × Log) → Log
log_or (ok r) = r.1
log_or (err e) = []

abbrev committing : CommitContext
committing = record {
  organizer = organizer;
  tournament = oracle_tournament;
  match_account = match_of 0 0;
  participant_a = participant_of alice;
  participant_b = participant_of bob;
  now = pos 120;
  slot = 900;
  log = [];
}

abbrev committed_match : MatchNode
committed_match = match_or (match_of 0 0) (commit_match_lobby chain committing (3 ∷ []) (77 ∷ []))

lobby_done :
    commit_match_lobby chain committing (3 ∷ []) (77 ∷ [])
    ≡ ok (committed_match, log_or (commit_match_lobby chain committing (3 ∷ []) (77 ∷ [])))
unfolding commit_match_lobby check_commit_accounts check_tournament check_match check_participant
    le_bytes commit_lobby
lobby_done = refl

-- The feed, with two submissions of 1.
abbrev feed_account : AccountInfo
feed_account = record {
  key = 60;
  owner = switchboard_on_demand_devnet;
  lamports = 0;
  bytes = 1 ∷ 900 ∷ 980 ∷ 700 ∷ [];
}

abbrev binding : BindContext
binding = record {
  organizer = organizer;
  tournament = oracle_tournament;
  match_account = committed_match;
  protocol_config = settings;
  switchboard_feed = feed_account;
  log = [];
}

abbrev bound_match : MatchNode
bound_match = match_or committed_match (bind_match_feed chain service binding)

feed_done :
    bind_match_feed chain service binding
    ≡ ok (bound_match, log_or (bind_match_feed chain service binding))
unfolding bind_match_feed check_bind_accounts check_tournament check_match check_protocol_config
    le_bytes commit_match_lobby check_commit_accounts check_participant commit_lobby bind_feed
    check_feed bytes_eq
feed_done = refl

abbrev relaying : OracleContext
relaying = record {
  relayer = 77;
  tournament = oracle_tournament;
  match_account = bound_match;
  protocol_config = settings;
  switchboard_feed = feed_account;
  slot = 1_000;
  now = pos 200;
  log = [];
}

abbrev named_match : MatchNode
named_match = match_or bound_match (propose_result_oracle chain service relaying)

abbrev named_log : Log
named_log = log_or (propose_result_oracle chain service relaying)

bob_named : propose_result_oracle chain service relaying ≡ ok (named_match, named_log)
unfolding propose_result_oracle check_tournament check_match check_protocol_config le_bytes
    propose_oracle read_feed resolve_oracle_winner value_of fill_envelope ◌+ℤ◌ bind_match_feed
    check_bind_accounts commit_match_lobby check_commit_accounts check_participant commit_lobby
    bind_feed check_feed bytes_eq
bob_named = refl

oracle_proposal-fresh_example :
    (relaying.switchboard_feed.key ≡ relaying.match_account.switchboard_feed)
    × ((feed : List ℕ) × (service.parse_feed (1 ∷ 900 ∷ 980 ∷ 700 ∷ []) ≡ some feed)
        × (1 ≤ 2)
        × (2 ≤ count_fresh 1_000 150 (slots_of feed))
        × (2 ≤ count_fresh 1_000 9_000 (slots_of feed)))
oracle_proposal-fresh_example =
    oracle_proposal-fresh chain 7 31 150 2 config service relaying named_match named_log
      settings_set bob_named

-- Bob confirms his own win one second later.
abbrev confirming : FinalizeContext (ℕ → ℕ)
confirming = record {
  signer = bob;
  tournament = oracle_tournament;
  match_account = named_match;
  next_match = none;
  protocol_config = settings;
  vault = vault;
  remaining_accounts = token_account 22 bob ∷ token_account 28 8 ∷ [];
  now = pos 201;
  ledger = balances;
  log = [];
}

abbrev players : Players
players = record { participant_a = participant_of alice; participant_b = participant_of bob }

abbrev settlement_or : Result (Settlement (ℕ → ℕ)) → Settlement (ℕ → ℕ)
settlement_or (ok s) = s
settlement_or (err e) = before chain tokens confirming players

abbrev confirmed : Settlement (ℕ → ℕ)
confirmed = settlement_or (run_finalizer chain tokens confirming players (confirms (bob ∷ [])))

confirmation_done :
    run_finalizer chain tokens confirming players (confirms (bob ∷ [])) ≡ ok confirmed
unfolding run_finalizer confirm_result check_all check_bracket_accounts check_players
    check_pool_accounts check_tournament check_match check_participant check_protocol_config
    check_vault confirm settle_and_credit settle credit_match_stats finalize_match report_match
    is_final_of max_round_of trailing_zeros finish_final distribute_prizes share_of split_placements
    floor_amounts add_lower absorb_remainder placement_count count_funded basis_points
    check_placements check_runner_up pay_placements pay_one pay_out pay_fee close_distribution
    validate_token_account le_bytes transfer move propose_result_oracle propose_oracle read_feed
    resolve_oracle_winner value_of fill_envelope ◌+ℤ◌ bind_match_feed check_bind_accounts
    commit_match_lobby check_commit_accounts commit_lobby bind_feed check_feed bytes_eq
confirmation_done = refl

oracle_window_example :
    ((o : IsOracleProposal chain service relaying named_match) × (confirmed.match_account.winner
        ≡ o.named))
    × (((bob ≢ 77)
          × ((bob ≡ relaying.match_account.player_a) ⊎ (bob ≡ relaying.match_account.player_b)))
        ⊎ (pos 200 +ℤ pos 3_600 ≤ℤ pos 201))
oracle_window_example =
    oracle_window chain tokens service relaying confirming players named_log (confirms (bob ∷ []))
      confirmed bob_named refl confirmation_done

bob_is_named : bob ≡ named_match.proposed_winner
unfolding propose_result_oracle check_tournament check_match check_protocol_config le_bytes
    propose_oracle read_feed resolve_oracle_winner value_of fill_envelope ◌+ℤ◌ bind_match_feed
    check_bind_accounts commit_match_lobby check_commit_accounts check_participant commit_lobby
    bind_feed check_feed bytes_eq
bob_is_named = refl

oracle_winner_confirms_example :
    confirm tokens confirming players (bob ∷ [])
    ≡ settle_and_credit tokens confirming players bob (bob ∷ []) false
oracle_winner_confirms_example =
    oracle_winner_confirms chain tokens service relaying confirming players named_log (bob ∷ [])
      bob_named bob_is_named (omega arith)

-- The match from its commitment to its end.
abbrev the_commitment : MatchCommitment
the_commitment = record {
  lobby_id = 3 ∷ [];
  player_a_game_id = [];
  player_b_game_id = [];
  expected_feed_hash = 77 ∷ [];
  committed_at = pos 120;
  committed_slot = 900;
}

committed_history : Reach chain tokens service (λ m. Unit) committed_match confirmed.match_account
committed_history =
    after
      (after
        (after untouched (
          feed_bound binding bound_match (log_or (bind_match_feed chain service binding))
            feed_done))
        (oracle_proposed relaying named_match named_log bob_named))
      (finalized confirming players (confirms (bob ∷ [])) confirmed confirmation_done)

lobby_committed_first : committed_match.commitment ≡ some the_commitment
unfolding commit_match_lobby check_commit_accounts check_tournament check_match check_participant
    le_bytes commit_lobby
lobby_committed_first = refl

Reach-commitment_example : confirmed.match_account.commitment ≡ some the_commitment
Reach-commitment_example =
    Reach-commitment chain tokens service (λ m. Unit) the_commitment committed_history
      lobby_committed_first
