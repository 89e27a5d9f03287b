-- ===== src/Proposal/Envelope.antt =====
-- propose_result.rs and dispute_result.rs. Each reads the tournament and writes the match.
use bracket_chain_programs.Prelude.{
  ℕ, Bool, true, false, ◌&&◌, ◌||◌, not, ◌==◌, ℤ, pos, checked_add_i64,
}
use bracket_chain_programs.Errors.{
  Result, ok, err, code, arithmetic_overflow, settlement_mode_mismatch, match_already_reported,
  proposal_already_exists, not_player_in_match, invalid_proposed_winner, no_proposal,
  proposal_disputed, not_counterparty, not_authorized, bad_proposal_source, ◌>>=◌, ◌>>◌, require,
  ok_or,
}
use bracket_chain_programs.Constants.{force_claim_window_secs}
use bracket_chain_programs.State.Tournament.{Tournament, is_organizer_only}
use bracket_chain_programs.State.MatchNode.{
  MatchNode, ProposalSource, is_match_active, is_no_source, source_discriminant,
}
use bracket_chain_programs.Events.{Log, emit, result_proposed, result_disputed}
use bracket_chain_programs.Runtime.{Runtime}
use bracket_chain_programs.Accounts.{check_tournament, check_match}

-- The accounts of both instructions, the clock and the log.
pub record EnvelopeContext : Type 0 where
  pub signer : ℕ
  pub tournament : Tournament
  pub match_account : MatchNode
  pub now : ℤ
  pub log : Log

-- `player == m.player_a || player == m.player_b`
abbrev pub in_match : MatchNode → ℕ → Bool
in_match m player = player == m.player_a || player == m.player_b

-- The write of a proposal into the envelope.
unfoldable pub fill_envelope : MatchNode → ProposalSource → ℕ → ℕ → ℤ → ℤ → MatchNode
fill_envelope m source proposer proposed_winner now claim_deadline = record m {
  proposal_source = source;
  proposer = proposer;
  proposed_winner = proposed_winner;
  proposed_at = now;
  claim_deadline = claim_deadline;
  disputed = false;
  dispute_reason = 0;
}

-- The handler of propose_result.rs, without its account constraints.
unfoldable pub propose : EnvelopeContext → ℕ → Result (MatchNode × Log)
unfolding fill_envelope
propose c proposed_winner = do
  let m = c.match_account
  require (not (is_organizer_only c.tournament.settlement_mode)) settlement_mode_mismatch
  require (is_match_active m.status) match_already_reported
  require (is_no_source m.proposal_source) proposal_already_exists
  require (in_match m c.signer) not_player_in_match
  require (in_match m proposed_winner) invalid_proposed_winner
  claim_deadline ←
      ok_or (checked_add_i64 c.now (pos c.tournament.dispute_window_secs))
        (code arithmetic_overflow)
  ok (
    fill_envelope m ProposalSource.player c.signer proposed_winner c.now claim_deadline,
    emit
        (result_proposed m.tournament m.bracket m.round m.match_index
          (source_discriminant ProposalSource.player) c.signer proposed_winner claim_deadline c.now)
        c.log,
  )

-- Who may dispute, by the origin of the proposal.
unfoldable pub check_disputer : ProposalSource → MatchNode → ℕ → ℕ → Result (Unit {0})
check_disputer ProposalSource.player m arbitrator disputer =
    require (in_match m disputer && not (disputer == m.proposer)) not_counterparty
check_disputer ProposalSource.oracle m arbitrator disputer =
    require (in_match m disputer || disputer == arbitrator) not_authorized
check_disputer ProposalSource.no_source m arbitrator disputer = err (code bad_proposal_source)
check_disputer ProposalSource.game_server m arbitrator disputer = err (code bad_proposal_source)

-- The handler of dispute_result.rs, without its account constraints.
unfoldable pub dispute : EnvelopeContext → ℕ → Result (MatchNode × Log)
unfolding check_disputer
dispute c dispute_reason = do
  let m = c.match_account
  require (not (is_no_source m.proposal_source)) no_proposal
  require (not m.disputed) proposal_disputed
  check_disputer m.proposal_source m c.tournament.arbitrator c.signer
  deadline ← ok_or (checked_add_i64 c.now (pos force_claim_window_secs)) (code arithmetic_overflow)
  ok (
    record m { disputed = true; dispute_reason = dispute_reason; claim_deadline = deadline },
    emit
        (result_disputed m.tournament m.bracket m.round m.match_index c.signer dispute_reason
          deadline c.now)
        c.log,
  )

module _ (rt : Runtime) where
  -- The account constraints of both instructions.
  unfoldable pub check_envelope_accounts : EnvelopeContext → Result (Unit {0})
  check_envelope_accounts c = do
    check_tournament rt c.tournament
    check_match rt c.tournament c.match_account

  unfoldable pub propose_result : EnvelopeContext → ℕ → Result (MatchNode × Log)
  propose_result c proposed_winner = do check_envelope_accounts c; propose c proposed_winner

  unfoldable pub dispute_result : EnvelopeContext → ℕ → Result (MatchNode × Log)
  dispute_result c dispute_reason = do check_envelope_accounts c; dispute c dispute_reason
