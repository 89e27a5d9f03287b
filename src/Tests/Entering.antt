-- ===== src/Tests/Entering.antt =====
-- The final of four, which the winners of the semifinals enter, in a tournament of the organizer's.
use bracket_chain_programs.Prelude.{ℕ, ◌≡◌, refl, inl, inr, some, [], arith, pos}
use bracket_chain_programs.Errors.{Result, ok, err}
use bracket_chain_programs.State.Payout.{winner_takes_all}
use bracket_chain_programs.State.Tournament.{SettlementMode}
use bracket_chain_programs.State.MatchNode.{MatchNode, MatchStatus}
use bracket_chain_programs.Runtime.{le_bytes}
use bracket_chain_programs.Accounts.{
  check_tournament, check_match, check_participant, check_protocol_config, check_vault,
}
use bracket_chain_programs.Settlement.Advance.{fill_slot, advance_winner}
use bracket_chain_programs.Settlement.Finalize.{
  Settlement, trailing_zeros, max_round_of, is_final_of, finish_round, report_match, finalize_match,
}
use bracket_chain_programs.Proposal.Finalizers.{
  FinalizeContext, Players, check_bracket_accounts, check_pool_accounts, settle, report,
  report_result,
}
use bracket_chain_programs.Proposal.Calls.{reports, run_finalizer}
use bracket_chain_programs.Proposal.Steps.{advanced, Reach, untouched, after, IsPending, IsSound}
use bracket_chain_programs.Proposal.Lifecycle.{Reach-IsSound}
use bracket_chain_programs.Tests.Ledger.{tokens, chain}
use bracket_chain_programs.Tests.Platform.{service}
use bracket_chain_programs.Tests.Bracket.{
  organizer, alice, bob, vault, config, tournament_of, match_of, empty_final, participant_of,
  balances,
}

-- The organizer reports a semifinal.
abbrev semifinal : MatchNode → MatchNode → FinalizeContext (ℕ → ℕ)
semifinal m next = record {
  signer = organizer;
  tournament = tournament_of winner_takes_all SettlementMode.organizer_only 4;
  match_account = m;
  next_match = some next;
  protocol_config = config;
  vault = vault;
  remaining_accounts = [];
  now = pos 300;
  ledger = balances;
  log = [];
}

abbrev players : Players
players = record { participant_a = participant_of alice; participant_b = participant_of bob }

abbrev settlement_or : Settlement (ℕ → ℕ) → Result (Settlement (ℕ → ℕ)) → Settlement (ℕ → ℕ)
settlement_or s (ok s') = s'
settlement_or s (err e) = s

abbrev before_of : FinalizeContext (ℕ → ℕ) → Settlement (ℕ → ℕ)
before_of c = record {
  tournament = c.tournament;
  match_account = c.match_account;
  next_match = c.next_match;
  ledger = c.ledger;
  log = c.log;
}

abbrev with_alice : MatchNode
with_alice = record empty_final { player_a = alice }

abbrev with_both : MatchNode
with_both = record with_alice { player_b = bob; status = MatchStatus.active }

abbrev left_reported : Settlement (ℕ → ℕ)
left_reported =
    settlement_or (before_of (semifinal (match_of 0 0) empty_final))
      (run_finalizer chain tokens (semifinal (match_of 0 0) empty_final) players (reports alice []))

abbrev right_reported : Settlement (ℕ → ℕ)
right_reported =
    settlement_or (before_of (semifinal (match_of 0 1) with_alice))
      (run_finalizer chain tokens (semifinal (match_of 0 1) with_alice) players (reports bob []))

left_done :
    (run_finalizer chain tokens (semifinal (match_of 0 0) empty_final) players (reports alice [])
      ≡ ok left_reported)
    × (left_reported.next_match ≡ some with_alice)
unfolding run_finalizer report_result check_bracket_accounts check_pool_accounts check_tournament
    check_match check_participant check_protocol_config check_vault report settle finalize_match
    report_match is_final_of max_round_of trailing_zeros finish_round advance_winner fill_slot
    le_bytes
left_done = (refl, refl)

right_done :
    (run_finalizer chain tokens (semifinal (match_of 0 1) with_alice) players (reports bob [])
      ≡ ok right_reported)
    × (right_reported.next_match ≡ some with_both)
unfolding run_finalizer report_result check_bracket_accounts check_pool_accounts check_tournament
    check_match check_participant check_protocol_config check_vault report settle finalize_match
    report_match is_final_of max_round_of trailing_zeros finish_round advance_winner fill_slot
    le_bytes
right_done = (refl, refl)

history : Reach chain tokens service IsPending empty_final with_both
history =
    after
      (after untouched (
        advanced (semifinal (match_of 0 0) empty_final) players (reports alice []) left_reported
          empty_final with_alice left_done.0 refl left_done.1 refl))
      (advanced (semifinal (match_of 0 1) with_alice) players (reports bob []) right_reported
        with_alice with_both right_done.0 refl right_done.1 refl)

Reach-IsSound_example : IsSound with_both
Reach-IsSound_example = Reach-IsSound chain tokens service history (record {
  proposal = inl refl;
  flag = inl refl;
  anchor = inl (λ e. ground arith);
  result = inl (λ e. ground arith);
  waiting = inr refl;
})
