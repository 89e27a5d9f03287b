-- ===== src/Proposal/Finalizers.antt =====
-- The six instructions that finalize a match. They share `finalize_match`, and differ in who signs,
-- in what they ask of the proposal's envelope, in the winner, and in whether the list of placements
-- is trusted.
use bracket_chain_programs.Prelude.{ℕ, Bool, true, false, not, Option, List, ◌==◌, ℤ, leb_ℤ}
use bracket_chain_programs.Errors.{
  Result, ok, unauthorized_authority, no_proposal, proposal_disputed, proposal_not_disputed,
  not_player_in_match, not_counterparty, claim_window_not_elapsed, settlement_mode_mismatch, ◌>>=◌,
  ◌>>◌, require,
}
use bracket_chain_programs.State.Tournament.{Tournament, is_organizer_only}
use bracket_chain_programs.State.MatchNode.{MatchNode, is_no_source}
use bracket_chain_programs.State.Participant.{Participant}
use bracket_chain_programs.State.ProtocolConfig.{ProtocolConfig}
use bracket_chain_programs.Events.{
  Log, Event, emit, result_claimed, dispute_resolved, final_settled,
}
use bracket_chain_programs.Runtime.{Runtime, AccountInfo, TokenProgram}
use bracket_chain_programs.Accounts.{
  check_tournament, check_match, check_participant, check_protocol_config, check_vault,
}
use bracket_chain_programs.Settlement.Advance.{credit_match_stats}
use bracket_chain_programs.Settlement.Finalize.{Settlement, finalize_match}
use bracket_chain_programs.Proposal.Envelope.{in_match}

-- The accounts that every finalizer takes but the participants', the remaining ones, the clock, the
-- ledger and the log.
pub record FinalizeContext (L : Type 0) : Type 0 where
  pub signer : ℕ
  pub tournament : Tournament
  pub match_account : MatchNode
  pub next_match : Option MatchNode
  pub protocol_config : ProtocolConfig
  pub vault : ℕ
  pub remaining_accounts : List AccountInfo
  pub now : ℤ
  pub ledger : L
  pub log : Log

-- The two participants of the match.
pub record Players : Type 0 where
  pub participant_a : Participant
  pub participant_b : Participant

-- What a finalizer leaves: the settlement and the credited participants.
pub record Finalized (L : Type 0) : Type 0 where
  pub settlement : Settlement L
  pub players : Players

abbrev pub log_event : {L : Type 0} → Event → Finalized L → Finalized L
log_event e f = record f { settlement = record (f.settlement) { log = emit e f.settlement.log } }

module _ (tp : TokenProgram) where
  -- The call of `finalize_match`.
  unfoldable pub settle :
      FinalizeContext tp.Ledger → ℕ → List ℕ → Bool → Result (Settlement tp.Ledger)
  settle c winner placements placements_trusted =
      finalize_match tp
        (record {
          vault = c.vault;
          protocol_config = c.protocol_config;
          remaining_accounts = c.remaining_accounts;
          winner = winner;
          placements = placements;
          placements_trusted = placements_trusted;
          now = c.now;
        })
        (record {
          tournament = c.tournament;
          match_account = c.match_account;
          next_match = c.next_match;
          ledger = c.ledger;
          log = c.log;
        })

  -- That call and the one of `credit_match_stats` after it.
  unfoldable pub settle_and_credit :
      FinalizeContext tp.Ledger → Players → ℕ → List ℕ → Bool → Result (Finalized tp.Ledger)
  settle_and_credit c p winner placements placements_trusted = do
    s ← settle c winner placements placements_trusted
    let credited = credit_match_stats p.participant_a p.participant_b winner
    ok (record {
      settlement = s;
      players = record { participant_a = credited.0; participant_b = credited.1 };
    })

  -- The handlers, without their account constraints.
  unfoldable pub report : FinalizeContext tp.Ledger → ℕ → List ℕ → Result (Settlement tp.Ledger)
  report c winner placements = do
    require (is_organizer_only c.tournament.settlement_mode) settlement_mode_mismatch
    settle c winner placements true

  unfoldable pub confirm :
      FinalizeContext tp.Ledger → Players → List ℕ → Result (Finalized tp.Ledger)
  confirm c p placements = do
    let m = c.match_account
    require (not (is_no_source m.proposal_source)) no_proposal
    require (not m.disputed) proposal_disputed
    require (in_match m c.signer) not_player_in_match
    require (not (c.signer == m.proposer)) not_counterparty
    settle_and_credit c p m.proposed_winner placements false

  unfoldable pub claim : FinalizeContext tp.Ledger → Players → List ℕ → Result (Finalized tp.Ledger)
  claim c p placements = do
    let m = c.match_account
    require (not (is_no_source m.proposal_source)) no_proposal
    require (not m.disputed) proposal_disputed
    require (leb_ℤ m.claim_deadline c.now) claim_window_not_elapsed
    f ← settle_and_credit c p m.proposed_winner placements false
    ok (
        log_event
          (result_claimed m.tournament m.bracket m.round m.match_index m.proposed_winner false
            c.now)
          f)

  unfoldable pub force_claim :
      FinalizeContext tp.Ledger → Players → List ℕ → Result (Finalized tp.Ledger)
  force_claim c p placements = do
    let m = c.match_account
    require (not (is_no_source m.proposal_source)) no_proposal
    require m.disputed proposal_not_disputed
    require (leb_ℤ m.claim_deadline c.now) claim_window_not_elapsed
    f ← settle_and_credit c p m.proposed_winner placements false
    ok (
        log_event
          (result_claimed m.tournament m.bracket m.round m.match_index m.proposed_winner true c.now)
          f)

  unfoldable pub resolve :
      FinalizeContext tp.Ledger → Players → ℕ → List ℕ → Result (Finalized tp.Ledger)
  resolve c p winner placements = do
    let m = c.match_account
    require m.disputed proposal_not_disputed
    f ← settle_and_credit c p winner placements true
    ok (
        log_event
          (dispute_resolved m.tournament m.bracket m.round m.match_index c.signer winner c.now) f)

  unfoldable pub settle_placements :
      FinalizeContext tp.Ledger → Players → List ℕ → Result (Finalized tp.Ledger)
  settle_placements c p placements = do
    let m = c.match_account
    require (not (is_no_source m.proposal_source)) no_proposal
    require (not m.disputed) proposal_disputed
    require (leb_ℤ m.claim_deadline c.now) claim_window_not_elapsed
    f ← settle_and_credit c p m.proposed_winner placements true
    ok (
        log_event
          (final_settled m.tournament m.bracket m.round m.match_index c.signer m.proposed_winner
            c.now)
          f)

module _ (rt : Runtime) where
  -- The account constraints that the finalizers share, in the order of the fields: the tournament
  -- and the match, then the participants where there are any, then the rest.
  unfoldable pub check_bracket_accounts : {L : Type 0} → FinalizeContext L → Result (Unit {0})
  check_bracket_accounts c = do
    check_tournament rt c.tournament
    check_match rt c.tournament c.match_account

  unfoldable pub check_players : {L : Type 0} → FinalizeContext L → Players → Result (Unit {0})
  check_players c p = do
    check_participant rt c.tournament c.match_account.player_a p.participant_a
    check_participant rt c.tournament c.match_account.player_b p.participant_b

  unfoldable pub check_pool_accounts : {L : Type 0} → FinalizeContext L → Result (Unit {0})
  check_pool_accounts c = do
    check_protocol_config rt c.protocol_config
    check_vault rt c.tournament c.vault

  unfoldable pub check_all : {L : Type 0} → FinalizeContext L → Players → Result (Unit {0})
  check_all c p = do check_bracket_accounts c; check_players c p; check_pool_accounts c

module _ (rt : Runtime) (tp : TokenProgram) where
  unfoldable pub report_result :
      FinalizeContext tp.Ledger → ℕ → List ℕ → Result (Settlement tp.Ledger)
  report_result c winner placements = do
    require (c.signer == c.tournament.organizer) unauthorized_authority
    check_bracket_accounts rt c
    check_pool_accounts rt c
    report tp c winner placements

  unfoldable pub confirm_result :
      FinalizeContext tp.Ledger → Players → List ℕ → Result (Finalized tp.Ledger)
  confirm_result c p placements = do check_all rt c p; confirm tp c p placements

  unfoldable pub claim_result :
      FinalizeContext tp.Ledger → Players → List ℕ → Result (Finalized tp.Ledger)
  claim_result c p placements = do check_all rt c p; claim tp c p placements

  unfoldable pub force_claim_disputed :
      FinalizeContext tp.Ledger → Players → List ℕ → Result (Finalized tp.Ledger)
  force_claim_disputed c p placements = do check_all rt c p; force_claim tp c p placements

  unfoldable pub resolve_dispute :
      FinalizeContext tp.Ledger → Players → ℕ → List ℕ → Result (Finalized tp.Ledger)
  resolve_dispute c p winner placements = do
    require (c.signer == c.tournament.organizer) unauthorized_authority
    check_all rt c p
    resolve tp c p winner placements

  unfoldable pub settle_final :
      FinalizeContext tp.Ledger → Players → List ℕ → Result (Finalized tp.Ledger)
  settle_final c p placements = do
    require (c.signer == c.tournament.arbitrator) unauthorized_authority
    check_all rt c p
    settle_placements tp c p placements
