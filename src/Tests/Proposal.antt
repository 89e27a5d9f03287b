-- ===== src/Tests/Proposal.antt =====
-- The theorems on proposals at a final between Alice and Bob: Alice proposes herself at 200, and
-- Bob confirms at 300, or disputes at 300 and a stranger forces the claim a day later.
use bracket_chain_programs.Prelude.{
  ℕ, ◌≡◌, refl, ap, ◌≢◌, ◌⊎◌, none, List, [], ◌∷◌, arith, ◌<◌, pos, ℤ, ◌≤ℤ◌, ◌+ℤ◌,
}
use bracket_chain_programs.Errors.{Result, ok, err}
use bracket_chain_programs.State.Payout.{
  winner_takes_all, standard, PayoutPreset, basis_points, count_funded, placement_count,
}
use bracket_chain_programs.State.Tournament.{TournamentStatus, SettlementMode}
use bracket_chain_programs.State.MatchNode.{MatchNode, MatchStatus, ProposalSource}
use bracket_chain_programs.Events.{Log}
use bracket_chain_programs.Runtime.{AccountInfo, validate_token_account, le_bytes}
use bracket_chain_programs.Accounts.{
  check_tournament, check_match, check_participant, check_protocol_config, check_vault,
}
use bracket_chain_programs.Settlement.Split.{
  share_of, floor_amounts, add_lower, absorb_remainder, split_placements,
}
use bracket_chain_programs.Settlement.Advance.{credit_match_stats}
use bracket_chain_programs.Settlement.Prizes.{
  check_placements, check_runner_up, pay_out, pay_one, pay_placements, pay_fee, close_distribution,
  distribute_prizes,
}
use bracket_chain_programs.Settlement.Finalize.{
  Settlement, trailing_zeros, max_round_of, is_final_of, finish_final, report_match, finalize_match,
}
use bracket_chain_programs.Settlement.Outcome.{IsOutcome}
use bracket_chain_programs.Proposal.Envelope.{
  EnvelopeContext, fill_envelope, propose, check_disputer, dispute, check_envelope_accounts,
  propose_result, dispute_result,
}
use bracket_chain_programs.Proposal.Finalizers.{
  FinalizeContext, Players, settle, settle_and_credit, confirm, force_claim, settle_placements,
  check_bracket_accounts, check_players, check_pool_accounts, check_all, confirm_result,
  force_claim_disputed, settle_final,
}
use bracket_chain_programs.Proposal.Calls.{
  Finalizer, confirms, force_claims, settles, run_finalizer, Authority,
}
use bracket_chain_programs.Proposal.Safety.{
  input_of, before, run_finalizer-IsOutcome, winner_proposed, completion_signer, finalized_once,
}
use bracket_chain_programs.Proposal.Window.{proposal_window, dispute_window}
use bracket_chain_programs.Proposal.Steps.{disputed, untouched, after, IsSettled}
use bracket_chain_programs.Proposal.Lifecycle.{Reach-IsSettled}
use bracket_chain_programs.Tests.Ledger.{tokens, chain, transfer, move}
use bracket_chain_programs.Tests.Platform.{service}
use bracket_chain_programs.Tests.Bracket.{
  alice, bob, carol, arbitrator, vault, config, tournament_of, match_of, participant_of,
  token_account, balances,
}

abbrev proposing : EnvelopeContext
proposing = record {
  signer = alice;
  tournament = tournament_of winner_takes_all SettlementMode.player_reported 2;
  match_account = match_of 0 0;
  now = pos 200;
  log = [];
}

-- What a call has left, or the match before it.
abbrev match_or : MatchNode → Result (MatchNode × Log) → MatchNode
match_or m (ok r) = r.0
match_or m (err e) = m

abbrev log_or : Result (MatchNode × Log) → Log
log_or (ok r) = r.1
log_or (err e) = []

abbrev proposed_match : MatchNode
proposed_match = match_or (match_of 0 0) (propose_result chain proposing alice)

abbrev proposed_log : Log
proposed_log = log_or (propose_result chain proposing alice)

alice_proposed : propose_result chain proposing alice ≡ ok (proposed_match, proposed_log)
unfolding propose_result check_envelope_accounts check_tournament check_match le_bytes propose
    fill_envelope ◌+ℤ◌
alice_proposed = refl

abbrev disputing : EnvelopeContext
disputing = record proposing { signer = bob; match_account = proposed_match; now = pos 300 }

abbrev disputed_match : MatchNode
disputed_match = match_or proposed_match (dispute_result chain disputing 1)

abbrev disputed_log : Log
disputed_log = log_or (dispute_result chain disputing 1)

bob_disputed : dispute_result chain disputing 1 ≡ ok (disputed_match, disputed_log)
unfolding dispute_result propose_result check_envelope_accounts check_tournament check_match
    le_bytes propose fill_envelope dispute check_disputer ◌+ℤ◌
bob_disputed = refl

-- The contexts of the finalizers.
abbrev finalizing : ℕ → PayoutPreset → MatchNode → List AccountInfo → ℤ → FinalizeContext (ℕ → ℕ)
finalizing signer preset m accounts now = record {
  signer = signer;
  tournament = tournament_of preset SettlementMode.player_reported 2;
  match_account = m;
  next_match = none;
  protocol_config = config;
  vault = vault;
  remaining_accounts = accounts;
  now = now;
  ledger = balances;
  log = [];
}

abbrev players : Players
players = record { participant_a = participant_of alice; participant_b = participant_of bob }

abbrev winner_accounts : List AccountInfo
winner_accounts = token_account 21 alice ∷ token_account 28 8 ∷ []

abbrev settlement_or : FinalizeContext (ℕ → ℕ) → Result (Settlement (ℕ → ℕ)) → Settlement (ℕ → ℕ)
settlement_or c (ok s) = s
settlement_or c (err e) = before chain tokens c players

abbrev confirming : FinalizeContext (ℕ → ℕ)
confirming = finalizing bob winner_takes_all proposed_match winner_accounts (pos 300)

abbrev confirmation : Finalizer
confirmation = confirms (alice ∷ [])

abbrev confirmed : Settlement (ℕ → ℕ)
confirmed = settlement_or confirming (run_finalizer chain tokens confirming players confirmation)

bob_confirmed : run_finalizer chain tokens confirming players confirmation ≡ ok confirmed
unfolding run_finalizer confirm_result check_all check_bracket_accounts check_players
    check_pool_accounts check_tournament check_match check_participant check_protocol_config
    check_vault confirm settle_and_credit settle credit_match_stats finalize_match report_match
    is_final_of max_round_of trailing_zeros finish_final distribute_prizes share_of split_placements
    floor_amounts add_lower absorb_remainder placement_count count_funded basis_points
    check_placements check_runner_up pay_placements pay_one pay_out pay_fee close_distribution
    validate_token_account le_bytes transfer move propose_result check_envelope_accounts propose
    fill_envelope ◌+ℤ◌
bob_confirmed = refl

run_finalizer-IsOutcome_example :
    Authority confirming confirmation
    × IsOutcome tokens
        (input_of chain tokens confirming players confirmation)
        (before chain tokens confirming players)
        confirmed
run_finalizer-IsOutcome_example =
    run_finalizer-IsOutcome chain tokens confirming players confirmation confirmed bob_confirmed

winner_proposed_example :
    (confirmed.match_account.winner ≡ proposed_match.proposed_winner)
    × (proposed_match.proposal_source ≢ ProposalSource.no_source)
winner_proposed_example =
    winner_proposed chain tokens confirming players confirmation confirmed bob_confirmed
      (omega arith)

-- The arbitrator settles a final with three placements, after the window.
abbrev podium_accounts : List AccountInfo
podium_accounts =
    token_account 21 alice ∷ token_account 22 bob ∷ token_account 23 carol ∷ token_account 28 8 ∷ []

abbrev settling : FinalizeContext (ℕ → ℕ)
settling = finalizing arbitrator standard proposed_match podium_accounts (pos 3_800)

abbrev settling_call : Finalizer
settling_call = settles (alice ∷ bob ∷ carol ∷ [])

abbrev settled : Settlement (ℕ → ℕ)
settled = settlement_or settling (run_finalizer chain tokens settling players settling_call)

arbitrator_settled :
    (run_finalizer chain tokens settling players settling_call ≡ ok settled)
    × (settled.tournament.status ≡ TournamentStatus.completed)
unfolding run_finalizer settle_final check_all check_bracket_accounts check_players
    check_pool_accounts check_tournament check_match check_participant check_protocol_config
    check_vault settle_placements settle_and_credit settle credit_match_stats finalize_match
    report_match is_final_of max_round_of trailing_zeros finish_final distribute_prizes share_of
    split_placements floor_amounts add_lower absorb_remainder placement_count count_funded
    basis_points check_placements check_runner_up pay_placements pay_one pay_out pay_fee
    close_distribution validate_token_account le_bytes transfer move propose_result
    check_envelope_accounts propose fill_envelope ◌+ℤ◌
arbitrator_settled = (refl, refl)

standard_many : 1 < placement_count standard
unfolding placement_count count_funded basis_points
standard_many = omega arith

completion_signer_example :
    (settling.signer ≡ settling.tournament.organizer)
    ⊎ (settling.signer ≡ settling.tournament.arbitrator)
completion_signer_example =
    completion_signer chain tokens settling players settling_call settled arbitrator_settled.0
      arbitrator_settled.1 standard_many

-- Bob confirms again, and the arbitrator settles after him.
abbrev settling_again : FinalizeContext (ℕ → ℕ)
settling_again = record settling { match_account = confirmed.match_account }

finalized_once_example :
    run_finalizer chain tokens settling_again players settling_call ≢ ok settled
finalized_once_example =
    finalized_once chain tokens confirming settling_again players players confirmation settling_call
      confirmed settled bob_confirmed refl

proposal_window_example :
    (confirmed.match_account.winner ≡ alice)
    × (((bob ≢ alice) × ((bob ≡ alice) ⊎ (bob ≡ bob))) ⊎ (pos 200 +ℤ pos 3_600 ≤ℤ pos 300))
proposal_window_example =
    proposal_window chain tokens proposing confirming players alice proposed_log confirmation
      confirmed alice_proposed refl bob_confirmed

-- A stranger forces the claim a day after the dispute.
abbrev forcing : FinalizeContext (ℕ → ℕ)
forcing = finalizing 77 winner_takes_all disputed_match winner_accounts (pos 86_700)

abbrev forced_call : Finalizer
forced_call = force_claims (alice ∷ [])

abbrev forced : Settlement (ℕ → ℕ)
forced = settlement_or forcing (run_finalizer chain tokens forcing players forced_call)

stranger_forced : run_finalizer chain tokens forcing players forced_call ≡ ok forced
unfolding run_finalizer force_claim_disputed check_all check_bracket_accounts check_players
    check_pool_accounts check_tournament check_match check_participant check_protocol_config
    check_vault force_claim settle_and_credit settle credit_match_stats finalize_match report_match
    is_final_of max_round_of trailing_zeros finish_final distribute_prizes share_of split_placements
    floor_amounts add_lower absorb_remainder placement_count count_funded basis_points
    check_placements check_runner_up pay_placements pay_one pay_out pay_fee close_distribution
    validate_token_account le_bytes transfer move propose_result check_envelope_accounts propose
    fill_envelope dispute_result dispute check_disputer ◌+ℤ◌
stranger_forced = refl

dispute_window_example :
    (forcing.signer ≡ forcing.tournament.organizer)
    ⊎ ((pos 300 +ℤ pos 86_400 ≤ℤ pos 86_700)
        × (forced.match_account.winner ≡ disputing.match_account.proposed_winner))
dispute_window_example =
    dispute_window chain tokens disputing forcing players 1 disputed_log forced_call forced
      bob_disputed (λ e. ground arith) stranger_forced

-- A completed match whose proposal is disputed all the same.
abbrev late_dispute : EnvelopeContext
late_dispute = record disputing { match_account = confirmed.match_account }

abbrev late_match : MatchNode
late_match = match_or confirmed.match_account (dispute_result chain late_dispute 1)

bob_disputed_late :
    dispute_result chain late_dispute 1
    ≡ ok (late_match, log_or (dispute_result chain late_dispute 1))
unfolding dispute_result dispute check_disputer run_finalizer confirm_result check_all
    check_bracket_accounts check_players check_pool_accounts check_tournament check_match
    check_participant check_protocol_config check_vault confirm settle_and_credit settle
    credit_match_stats finalize_match report_match is_final_of max_round_of trailing_zeros
    finish_final distribute_prizes share_of split_placements floor_amounts add_lower
    absorb_remainder placement_count count_funded basis_points check_placements check_runner_up
    pay_placements pay_one pay_out pay_fee close_distribution validate_token_account le_bytes
    transfer move propose_result check_envelope_accounts propose fill_envelope ◌+ℤ◌
bob_disputed_late = refl

confirmed_completed : confirmed.match_account.status ≡ MatchStatus.completed
confirmed_completed =
    let outcome =
      run_finalizer-IsOutcome chain tokens confirming players confirmation confirmed
        bob_confirmed in
    ap (λ m. m.status) outcome.1.0.match_after

Reach-IsSettled_example : IsSettled confirmed.match_account late_match
Reach-IsSettled_example =
    Reach-IsSettled chain tokens service
      (after untouched (
        disputed late_dispute 1 late_match (log_or (dispute_result chain late_dispute 1))
          bob_disputed_late))
      confirmed_completed
