-- ===== src/Oracle/Window.antt =====
-- When the oracle's proposal can be finalized.
use bracket_chain_programs.Prelude.{
  ℕ, ◌≡◌, sym, ap, ◌∙◌, ◌≢◌, ◌⊎◌, true, false, List, arith, ◌≤ℤ◌, ◌+ℤ◌, pos, ◌==◌,
}
use bracket_chain_programs.Errors.{ok}
use bracket_chain_programs.State.MatchNode.{ProposalSource}
use bracket_chain_programs.Events.{Log}
use bracket_chain_programs.Runtime.{Runtime, TokenProgram}
use bracket_chain_programs.Switchboard.{Switchboard}
use bracket_chain_programs.Settlement.Finalize.{Settlement}
use bracket_chain_programs.Proposal.Envelope.{in_match, fill_envelope}
use bracket_chain_programs.Proposal.Finalizers.{
  FinalizeContext, Players, settle_and_credit, confirm,
}
use bracket_chain_programs.Proposal.Calls.{Finalizer, run_finalizer}
use bracket_chain_programs.Proposal.Safety.{run_finalizer-IsOutcome}
use bracket_chain_programs.Proposal.Window.{IsFresh, fresh_call}
use bracket_chain_programs.Oracle.Propose.{OracleContext, propose_result_oracle}
use bracket_chain_programs.Oracle.Outcome.{IsOracleProposal, propose_result_oracle-IsOracleProposal}

module _ (rt : Runtime) (tp : TokenProgram) (sb : Switchboard) (e : OracleContext)
    (c : FinalizeContext tp.Ledger) (p : Players) where
  -- When a finalizer succeeds on a match as `propose_result_oracle` left it, with the settlement
  -- mode unchanged, the match is settled for the player whom the feed names, the first for the
  -- number 0 and the second for 1, and the signer is a player of the match other than the relayer,
  -- or the dispute window has passed since the proposal.
  pub oracle_window :
      (log : Log) (call : Finalizer) (s : Settlement tp.Ledger)
      → propose_result_oracle rt sb e ≡ ok (c.match_account, log)
      → c.tournament.settlement_mode ≡ e.tournament.settlement_mode
      → run_finalizer rt tp c p call ≡ ok s
      → ((o : IsOracleProposal rt sb e c.match_account) × (s.match_account.winner ≡ o.named))
        × (((c.signer ≢ e.relayer)
              × ((c.signer ≡ e.match_account.player_a) ⊎ (c.signer ≡ e.match_account.player_b)))
            ⊎ (e.now +ℤ pos e.tournament.dispute_window_secs ≤ℤ c.now))
  unfolding fill_envelope
  oracle_window log call s h same done =
      let i = propose_result_oracle-IsOracleProposal rt sb e c.match_account log h in
      let o = run_finalizer-IsOutcome rt tp c p call s done in
      let fresh : IsFresh tp c e.match_account e.relayer i.named
          (e.now +ℤ pos e.tournament.dispute_window_secs) =
        record {
          same_proposer = ap (λ m. m.proposer) i.after;
          same_winner = ap (λ m. m.proposed_winner) i.after;
          same_deadline = ap (λ m. m.claim_deadline) i.after;
          undisputed = ap (λ m. m.disputed) i.after;
          same_players = (ap (λ m. m.player_a) i.after, ap (λ m. m.player_b) i.after);
        } in
      let f =
        fresh_call tp c e.match_account e.relayer i.named
          (e.now +ℤ pos e.tournament.dispute_window_secs) call fresh
          (λ own. ground (arith, same, i.mode, own)) o.0 in
      ((i, ap (λ m. m.winner) o.1.0.match_after ∙ f.0), f.1)

  -- On a match as `propose_result_oracle` left it, the handler of `confirm_result`, signed by the
  -- player whom the feed named, if it did not relay the proposal itself, goes straight to the
  -- settlement for its signer, at any time.
  pub oracle_winner_confirms :
      (log : Log) (placements : List ℕ)
      → propose_result_oracle rt sb e ≡ ok (c.match_account, log)
      → c.signer ≡ c.match_account.proposed_winner
      → c.signer ≢ e.relayer
      → confirm tp c p placements ≡ settle_and_credit tp c p c.signer placements false
  unfolding confirm fill_envelope
  oracle_winner_confirms log placements h winner other =
      let i = propose_result_oracle-IsOracleProposal rt sb e c.match_account log h in
      let source : c.match_account.proposal_source ≡ ProposalSource.oracle =
        ap (λ m. m.proposal_source) i.after in
      let undisputed : c.match_account.disputed ≡ false = ap (λ m. m.disputed) i.after in
      let proposer : c.match_account.proposer ≡ e.relayer = ap (λ m. m.proposer) i.after in
      let named : c.match_account.proposed_winner ≡ i.named = ap (λ m. m.proposed_winner) i.after in
      let first : c.match_account.player_a ≡ e.match_account.player_a =
        ap (λ m. m.player_a) i.after in
      let second : c.match_account.player_b ≡ e.match_account.player_b =
        ap (λ m. m.player_b) i.after in
      let played : in_match c.match_account c.signer ≡ true =
        ground (arith, winner, named, i.winner, first, second) in
      let apart : (c.signer == c.match_account.proposer) ≡ false =
        ground (arith, proposer, other) in
      let passed : confirm tp c p placements
          ≡ settle_and_credit tp c p c.match_account.proposed_winner placements false =
        ground (arith, source, undisputed, played, apart) in
      passed ∙ ap (λ w. settle_and_credit tp c p w placements false) (sym winner)
