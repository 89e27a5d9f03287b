-- ===== src/Proposal/Window.antt =====
-- The dispute window: when a proposal, disputed or not, can be finalized without the organizer.
use bracket_chain_programs.Prelude.{
  ℕ, ◌≡◌, sym, ap, subst, ◌∙◌, ◌≢◌, ◌⊎◌, inl, inr, true, false, arith, ◌≤ℤ◌, ◌+ℤ◌, pos, ℤ,
}
use bracket_chain_programs.Errors.{ok}
use bracket_chain_programs.State.Tournament.{SettlementMode}
use bracket_chain_programs.State.MatchNode.{MatchNode, MatchStatus, ProposalSource}
use bracket_chain_programs.Events.{Log}
use bracket_chain_programs.Runtime.{Runtime, TokenProgram}
use bracket_chain_programs.Settlement.Finalize.{Settlement}
use bracket_chain_programs.Proposal.Finalizers.{FinalizeContext, Players}
use bracket_chain_programs.Proposal.Calls.{
  Finalizer, reports, resolves, confirms, claims, force_claims, settles, run_finalizer, winner_of,
  Authority,
}
use bracket_chain_programs.Proposal.Safety.{run_finalizer-IsOutcome}
use bracket_chain_programs.Proposal.Envelope.{
  EnvelopeContext, propose, dispute, propose_result, dispute_result,
}

-- What a proposal by a player leaves in the envelope.
pub record IsProposed (c : EnvelopeContext) (proposed_winner : ℕ) (m : MatchNode) : Type 0 where
  pub by_player : (c.signer ≡ c.match_account.player_a) ⊎ (c.signer ≡ c.match_account.player_b)
  pub for_player :
      (proposed_winner ≡ c.match_account.player_a) ⊎ (proposed_winner ≡ c.match_account.player_b)
  pub was_empty : c.match_account.proposal_source ≡ ProposalSource.no_source
  pub was_active : c.match_account.status ≡ MatchStatus.active
  pub source : m.proposal_source ≡ ProposalSource.player
  pub proposer : m.proposer ≡ c.signer
  pub winner : m.proposed_winner ≡ proposed_winner
  pub deadline : m.claim_deadline ≡ c.now +ℤ pos c.tournament.dispute_window_secs
  pub undisputed : m.disputed ≡ false
  pub same_players :
      (m.player_a ≡ c.match_account.player_a) × (m.player_b ≡ c.match_account.player_b)
  pub same_status : m.status ≡ c.match_account.status
  pub same_commitment : m.commitment ≡ c.match_account.commitment
  pub mode : c.tournament.settlement_mode ≢ SettlementMode.organizer_only

pub propose-IsProposed :
    (c : EnvelopeContext) (w : ℕ) (m : MatchNode) (log : Log)
    → propose c w ≡ ok (m, log)
    → IsProposed c w m
unfolding propose
propose-IsProposed c w m log h = ground arith

-- Who may dispute, and what a dispute leaves: the proposal stands, and the deadline is set anew.
pub record IsDisputed (c : EnvelopeContext) (reason : ℕ) (m : MatchNode) : Type 0 where
  pub entitled :
      ((c.match_account.proposal_source ≡ ProposalSource.player)
        × ((c.signer ≡ c.match_account.player_a) ⊎ (c.signer ≡ c.match_account.player_b))
        × (c.signer ≢ c.match_account.proposer))
      ⊎ ((c.match_account.proposal_source ≡ ProposalSource.oracle)
          × ((c.signer ≡ c.match_account.player_a)
              ⊎ (c.signer ≡ c.match_account.player_b)
              ⊎ (c.signer ≡ c.tournament.arbitrator)))
  pub was_undisputed : c.match_account.disputed ≡ false
  pub after : m ≡ record (c.match_account) {
    disputed = true;
    dispute_reason = reason;
    claim_deadline = c.now +ℤ pos 86_400;
  }

-- A dispute goes through only for the player who did not author a player's proposal, or for either
-- player or the arbitrator against an oracle's; it raises the flag, and lets nothing else change
-- but the reason and the deadline, now 24 hours away.
pub dispute-IsDisputed :
    (c : EnvelopeContext) (reason : ℕ) (m : MatchNode) (log : Log)
    → dispute c reason ≡ ok (m, log)
    → IsDisputed c reason m
unfolding dispute
dispute-IsDisputed c reason m log h = record {
  entitled = ground arith;
  was_undisputed = ground arith;
  after = ground arith;
}

module _ (rt : Runtime) (c : EnvelopeContext) where
  pub propose_result-IsProposed :
      (w : ℕ) (m : MatchNode) (log : Log) → propose_result rt c w ≡ ok (m, log) → IsProposed c w m
  unfolding propose_result
  propose_result-IsProposed w m log h = propose-IsProposed c w m log (ground arith)

  pub dispute_result-IsDisputed :
      (reason : ℕ) (m : MatchNode) (log : Log)
      → dispute_result rt c reason ≡ ok (m, log)
      → IsDisputed c reason m
  unfolding dispute_result
  dispute_result-IsDisputed reason m log h = dispute-IsDisputed c reason m log (ground arith)

module _ (tp : TokenProgram) (c : FinalizeContext tp.Ledger) where
  -- An envelope that was just filled: by whom, for which winner, until when, on the match `m`.
  pub record IsFresh (m : MatchNode) (proposer winner : ℕ) (deadline : ℤ) : Type 0 where
    pub same_proposer : c.match_account.proposer ≡ proposer
    pub same_winner : c.match_account.proposed_winner ≡ winner
    pub same_deadline : c.match_account.claim_deadline ≡ deadline
    pub undisputed : c.match_account.disputed ≡ false
    pub same_players :
        (c.match_account.player_a ≡ m.player_a) × (c.match_account.player_b ≡ m.player_b)

  -- Which calls it admits.
  pub fresh_call :
      (m : MatchNode) (proposer winner : ℕ) (deadline : ℤ) (call : Finalizer)
      → IsFresh m proposer winner deadline
      → c.tournament.settlement_mode ≢ SettlementMode.organizer_only
      → Authority c call
      → (winner_of c call ≡ winner)
        × (((c.signer ≢ proposer) × ((c.signer ≡ m.player_a) ⊎ (c.signer ≡ m.player_b)))
            ⊎ (deadline ≤ℤ c.now))
  fresh_call m proposer w d (reports _ _) i mode a = absurd (mode a.1)
  fresh_call m proposer w d (resolves _ _) i mode a = absurd (ground (arith, i.undisputed))
  fresh_call m proposer w d (confirms _) i mode a = (
    i.same_winner,
    inl (
      λ own. a.3 (own ∙ sym i.same_proposer),
      ground (arith, a.2, i.same_players.0, i.same_players.1),
    ),
  )
  fresh_call m proposer w d (claims _) i mode a =
      (i.same_winner, inr (subst (λ d. d ≤ℤ c.now) i.same_deadline a.2))
  fresh_call m proposer w d (force_claims _) i mode a = absurd (ground (arith, i.undisputed))
  fresh_call m proposer w d (settles _) i mode a =
      (i.same_winner, inr (subst (λ d. d ≤ℤ c.now) i.same_deadline a.3))

module _ (rt : Runtime) (tp : TokenProgram) (e : EnvelopeContext) (c : FinalizeContext tp.Ledger)
    (p : Players) where
  -- When a finalizer succeeds on a match as `propose_result` left it, with the settlement mode
  -- unchanged, the winner is the proposed one, and the signer is a player of the match other than
  -- the proposer, or the dispute window has passed since the proposal.
  pub proposal_window :
      (w : ℕ) (log : Log) (call : Finalizer) (s : Settlement tp.Ledger)
      → propose_result rt e w ≡ ok (c.match_account, log)
      → c.tournament.settlement_mode ≡ e.tournament.settlement_mode
      → run_finalizer rt tp c p call ≡ ok s
      → (s.match_account.winner ≡ w)
        × (((c.signer ≢ e.signer)
              × ((c.signer ≡ e.match_account.player_a) ⊎ (c.signer ≡ e.match_account.player_b)))
            ⊎ (e.now +ℤ pos e.tournament.dispute_window_secs ≤ℤ c.now))
  proposal_window w log call s h same done =
      let i = propose_result-IsProposed rt e w c.match_account log h in
      let o = run_finalizer-IsOutcome rt tp c p call s done in
      let fresh : IsFresh tp c e.match_account e.signer w
          (e.now +ℤ pos e.tournament.dispute_window_secs) =
        record {
          same_proposer = i.proposer;
          same_winner = i.winner;
          same_deadline = i.deadline;
          undisputed = i.undisputed;
          same_players = i.same_players;
        } in
      let f =
        fresh_call tp c e.match_account e.signer w (e.now +ℤ pos e.tournament.dispute_window_secs)
          call fresh (λ own. i.mode (sym same ∙ own)) o.0 in
      (ap (λ m. m.winner) o.1.0.match_after ∙ f.0, f.1)

  disputed_call :
      (reason : ℕ) (call : Finalizer)
      → IsDisputed e reason c.match_account
      → Authority c call
      → (c.tournament.settlement_mode ≢ SettlementMode.organizer_only)
      → ((c.signer ≡ c.tournament.organizer)
          ⊎ ((e.now +ℤ pos 86_400 ≤ℤ c.now) × (winner_of c call ≡ e.match_account.proposed_winner)))
  disputed_call reason (reports _ _) i a mode = absurd (mode a.1)
  disputed_call reason (resolves _ _) i a mode = inl a.0
  disputed_call reason (confirms _) i a mode = absurd (ground (arith, i.after))
  disputed_call reason (claims _) i a mode = absurd (ground (arith, i.after))
  disputed_call reason (force_claims _) i a mode = inr (
    subst (λ d. d ≤ℤ c.now) (ap (λ m. m.claim_deadline) i.after) a.2,
    ap (λ m. m.proposed_winner) i.after,
  )
  disputed_call reason (settles _) i a mode = absurd (ground (arith, i.after))

  -- When a finalizer succeeds on a match as `dispute_result` left it, in a tournament that is not
  -- settled by the organizer alone, the signer is the organizer, or 24 hours have passed since the
  -- dispute and the winner is the proposed one.
  pub dispute_window :
      (reason : ℕ) (log : Log) (call : Finalizer) (s : Settlement tp.Ledger)
      → dispute_result rt e reason ≡ ok (c.match_account, log)
      → c.tournament.settlement_mode ≢ SettlementMode.organizer_only
      → run_finalizer rt tp c p call ≡ ok s
      → ((c.signer ≡ c.tournament.organizer)
          ⊎ ((e.now +ℤ pos 86_400 ≤ℤ c.now)
              × (s.match_account.winner ≡ e.match_account.proposed_winner)))
  dispute_window reason log call s h mode done =
      let i = dispute_result-IsDisputed rt e reason c.match_account log h in
      let o = run_finalizer-IsOutcome rt tp c p call s done in
      ground (arith, disputed_call reason call i o.0 mode, o.1.0.match_after)
