-- ===== src/Proposal/Safety.antt =====
-- What no finalizer can do: settle a match twice, crown someone who did not play, pay out several
-- placements on an untrusted signature, or outrun the dispute window.
use bracket_chain_programs.Prelude.{◌≤◌, ◌<◌, ◌≡◌, sym, ap, subst, ◌≢◌, ◌⊎◌, inl, inr, true, arith}
use bracket_chain_programs.Errors.{ok}
use bracket_chain_programs.State.Payout.{placement_count}
use bracket_chain_programs.State.Tournament.{TournamentStatus}
use bracket_chain_programs.State.MatchNode.{ProposalSource}
use bracket_chain_programs.Runtime.{Runtime, TokenProgram}
use bracket_chain_programs.Settlement.Finalize.{Settlement, FinalizeInput}
use bracket_chain_programs.Settlement.Outcome.{IsOutcome, IsOutcome-relog, finalize_match-IsOutcome}
use bracket_chain_programs.Proposal.Finalizers.{FinalizeContext, Players, settle}
use bracket_chain_programs.Proposal.Calls.{
  Finalizer, reports, resolves, confirms, claims, force_claims, settles, run_finalizer, winner_of,
  placements_of, trusted_of, Authority, run_finalizer-Settles,
}

module _ (rt : Runtime) (tp : TokenProgram) (c : FinalizeContext tp.Ledger) (p : Players) where
  -- The input and the state that a call hands to `finalize_match`.
  abbrev pub input_of : Finalizer → FinalizeInput
  input_of call = record {
    vault = c.vault;
    protocol_config = c.protocol_config;
    remaining_accounts = c.remaining_accounts;
    winner = winner_of c call;
    placements = placements_of call;
    placements_trusted = trusted_of call;
    now = c.now;
  }

  abbrev pub before : Settlement tp.Ledger
  before = record {
    tournament = c.tournament;
    match_account = c.match_account;
    next_match = c.next_match;
    ledger = c.ledger;
    log = c.log;
  }

  -- A finalizer succeeds only with its authority, on an active match of an active tournament, for a
  -- player of the match; it completes the match for its winner and counts it. On the final it
  -- completes the tournament, and then it is trusted or the preset has one placement at most; on
  -- any other match it moves no token and fills the winner's slot of the parent match.
  pub run_finalizer-IsOutcome :
      (call : Finalizer) (s : Settlement tp.Ledger)
      → run_finalizer rt tp c p call ≡ ok s
      → Authority c call × IsOutcome tp (input_of call) before s
  unfolding settle
  run_finalizer-IsOutcome call s h =
      let (authority, settled) = run_finalizer-Settles rt tp c p call s h in
      let (s0, done, same) = settled in
      (
        authority,
        subst (λ s'. IsOutcome tp (input_of call) before s') (sym same)
            (IsOutcome-relog tp (input_of call) before s0 s.log
              (finalize_match-IsOutcome tp (input_of call) before s0 done)),
      )

  -- When a call by someone other than the organizer succeeds, the match had a proposal, and its
  -- winner is the proposed one.
  pub winner_proposed :
      (call : Finalizer) (s : Settlement tp.Ledger)
      → run_finalizer rt tp c p call ≡ ok s
      → c.signer ≢ c.tournament.organizer
      → (s.match_account.winner ≡ c.match_account.proposed_winner)
        × (c.match_account.proposal_source ≢ ProposalSource.no_source)
  winner_proposed (reports winner placements) s h stranger =
      absurd (stranger (run_finalizer-IsOutcome (reports winner placements) s h).0.0)
  winner_proposed (resolves winner placements) s h stranger =
      absurd (stranger (run_finalizer-IsOutcome (resolves winner placements) s h).0.0)
  winner_proposed (confirms placements) s h stranger =
      let o = run_finalizer-IsOutcome (confirms placements) s h in
      (ap (λ m. m.winner) o.1.0.match_after, o.0.0)
  winner_proposed (claims placements) s h stranger =
      let o = run_finalizer-IsOutcome (claims placements) s h in
      (ap (λ m. m.winner) o.1.0.match_after, o.0.0)
  winner_proposed (force_claims placements) s h stranger =
      let o = run_finalizer-IsOutcome (force_claims placements) s h in
      (ap (λ m. m.winner) o.1.0.match_after, o.0.0)
  winner_proposed (settles placements) s h stranger =
      let o = run_finalizer-IsOutcome (settles placements) s h in
      (ap (λ m. m.winner) o.1.0.match_after, o.0.1)

  completion_trusted :
      (call : Finalizer) (s : Settlement tp.Ledger)
      → IsOutcome tp (input_of call) before s
      → s.tournament.status ≡ TournamentStatus.completed
      → (trusted_of call ≡ true) ⊎ (placement_count c.tournament.payout_preset ≤ 1)
  completion_trusted call s (reported, inl won) done = won.trusted
  completion_trusted call s (reported, inr advanced) done =
      absurd (ground (arith, advanced.still_active))

  -- A successful call that leaves the tournament completed, where its preset pays more than one
  -- placement, was signed by the organizer or by the arbitrator.
  pub completion_signer :
      (call : Finalizer) (s : Settlement tp.Ledger)
      → run_finalizer rt tp c p call ≡ ok s
      → s.tournament.status ≡ TournamentStatus.completed
      → 1 < placement_count c.tournament.payout_preset
      → (c.signer ≡ c.tournament.organizer) ⊎ (c.signer ≡ c.tournament.arbitrator)
  completion_signer call s h done many =
      let o = run_finalizer-IsOutcome call s h in
      by_kind call o.0 (completion_trusted call s o.1 done)
    where
      by_kind :
          (call : Finalizer)
          → Authority c call
          → (trusted_of call ≡ true) ⊎ (placement_count c.tournament.payout_preset ≤ 1)
          → (c.signer ≡ c.tournament.organizer) ⊎ (c.signer ≡ c.tournament.arbitrator)
      by_kind (reports winner placements) a t = inl a.0
      by_kind (resolves winner placements) a t = inl a.0
      by_kind (settles placements) a t = inr a.0
      by_kind (confirms placements) a t = absurd (ground arith)
      by_kind (claims placements) a t = absurd (ground arith)
      by_kind (force_claims placements) a t = absurd (ground arith)

-- A match is settled once: after any finalizer has succeeded, no finalizer of any kind succeeds on
-- the match that it left, whoever signs and whatever the other accounts are by then.
pub finalized_once :
    (rt : Runtime) (tp : TokenProgram) (c c' : FinalizeContext tp.Ledger) (p p' : Players)
    (call call' : Finalizer) (s s' : Settlement tp.Ledger)
    → run_finalizer rt tp c p call ≡ ok s
    → c'.match_account ≡ s.match_account
    → run_finalizer rt tp c' p' call' ≢ ok s'
finalized_once rt tp c c' p p' call call' s s' h same h' =
    let first = run_finalizer-IsOutcome rt tp c p call s h in
    let again = run_finalizer-IsOutcome rt tp c' p' call' s' h' in
    absurd (ground (arith, first.1.0.match_after, again.1.0.match_was_active))
