-- ===== src/Proposal/Lifecycle.antt =====
-- The life of a match node under proposals, disputes, finalizers and the oracle's instructions.
use bracket_chain_programs.Prelude.{ℕ, ◌≡◌, refl, sym, ap, ◌∙◌, subst, inl, inr, some, arith}
use bracket_chain_programs.Errors.{ok}
use bracket_chain_programs.State.MatchNode.{MatchNode, MatchStatus, MatchCommitment, ProposalSource}
use bracket_chain_programs.Runtime.{Runtime, TokenProgram}
use bracket_chain_programs.Settlement.Finalize.{Settlement}
use bracket_chain_programs.Proposal.Finalizers.{FinalizeContext, Players}
use bracket_chain_programs.Settlement.Advance.{fill_slot}
use bracket_chain_programs.Proposal.Calls.{Finalizer, run_finalizer, winner_of}
use bracket_chain_programs.Proposal.Safety.{run_finalizer-IsOutcome}
use bracket_chain_programs.Switchboard.{Switchboard}
use bracket_chain_programs.Oracle.Outcome.{
  commit_match_lobby-IsCommitted, bind_match_feed-IsBound, propose_result_oracle-IsOracleProposal,
}
use bracket_chain_programs.Proposal.Envelope.{fill_envelope}
use bracket_chain_programs.Proposal.Window.{propose_result-IsProposed, dispute_result-IsDisputed}
use bracket_chain_programs.Proposal.Steps.{
  Step, proposed, disputed, finalized, advanced, lobby_committed, feed_bound, oracle_proposed,
  Reach, untouched, after, IsSound, IsPending, IsSettled,
}

-- A slot that is filled in a match that waits for its players.
fill_slot-IsSound : (m : MatchNode) (i w : ℕ) → IsPending m → IsSound m → IsSound (fill_slot m i w)
unfolding fill_slot
fill_slot-IsSound m i w pending s =
    let none_yet : m.proposal_source ≡ ProposalSource.no_source =
      ground (arith, pending, s.waiting) in
    record {
      proposal = inl none_yet;
      flag = s.flag;
      anchor = s.anchor;
      result = inl (ground (arith, pending));
      waiting = inr none_yet;
    }

fill_slot-commitment : (m : MatchNode) (i w : ℕ) → (fill_slot m i w).commitment ≡ m.commitment
unfolding fill_slot
fill_slot-commitment m i w = refl

module _ (rt : Runtime) (tp : TokenProgram) (sb : Switchboard) where
  -- The parent that a finalizer leaves is the one handed over with a slot filled.
  advanced-filled :
      (c : FinalizeContext tp.Ledger) (p : Players) (call : Finalizer) (s : Settlement tp.Ledger)
      (m m' : MatchNode)
      → run_finalizer rt tp c p call ≡ ok s
      → c.next_match ≡ some m
      → s.next_match ≡ some m'
      → (i : ℕ) × (w : ℕ) × (m' ≡ fill_slot m i w)
  advanced-filled c p call s m m' h parent left =
      elim (run_finalizer-IsOutcome rt tp c p call s h).1.1 [
        | inl won ↦ absurd (ground (arith, won.no_next, parent))
        | inr moved ↦
            let same : moved.next ≡ m = ground (arith, moved.next_before, parent) in
            let filled : m' ≡ fill_slot moved.next c.match_account.match_index (winner_of c call) =
              ground (arith, moved.next_after, left) in
            (
              c.match_account.match_index,
              winner_of c call,
              filled ∙ ap (λ x. fill_slot x c.match_account.match_index (winner_of c call)) same,
            )
      ]

  Step-IsSound : {m m' : MatchNode} → Step rt tp sb IsPending m m' → IsSound m → IsSound m'
  unfolding fill_envelope
  Step-IsSound (proposed c w m log h) s =
      let i = propose_result-IsProposed rt c w m log h in
      record {
        proposal = ground (arith, i.winner, i.for_player, i.same_players);
        flag = inl i.undisputed;
        anchor = inl (λ e. ground (arith, i.source));
        result = inl (λ e. ground (arith, i.was_active, i.same_status));
        waiting = inl (λ e. ground (arith, i.was_active, i.same_status));
      }
  Step-IsSound (disputed c reason m log h) s =
      let i = dispute_result-IsDisputed rt c reason m log h in
      subst IsSound (sym i.after) (record {
        proposal = s.proposal;
        flag = inr (ground (arith, i.entitled));
        anchor = s.anchor;
        result = s.result;
        waiting = s.waiting;
      })
  Step-IsSound (finalized c p call t h) s =
      let o = run_finalizer-IsOutcome rt tp c p call t h in
      subst IsSound (sym o.1.0.match_after) (record {
        proposal = s.proposal;
        flag = s.flag;
        anchor = s.anchor;
        result = inr o.1.0.winner_played;
        waiting = inl (λ e. ground arith);
      })
  Step-IsSound (advanced c p call t m m' h parent left waiting) s =
      let (k, w, filled) = advanced-filled c p call t m m' h parent left in
      subst IsSound (sym filled) (fill_slot-IsSound m k w waiting s)
  Step-IsSound (lobby_committed c lobby_id feed_hash m log h) s =
      let i = commit_match_lobby-IsCommitted rt c lobby_id feed_hash m log h in
      subst IsSound (sym i.after) (record {
        proposal = s.proposal;
        flag = s.flag;
        anchor = inr (λ e. ground arith);
        result = s.result;
        waiting = s.waiting;
      })
  Step-IsSound (feed_bound c m log h) s =
      let i = bind_match_feed-IsBound rt sb c m log h in
      subst IsSound (sym i.after) (record {
        proposal = s.proposal;
        flag = s.flag;
        anchor = s.anchor;
        result = s.result;
        waiting = s.waiting;
      })
  Step-IsSound (oracle_proposed c m log h) s =
      let i = propose_result_oracle-IsOracleProposal rt sb c m log h in
      subst IsSound (sym i.after) (record {
        proposal = inr (ground (arith, i.winner));
        flag = inl refl;
        anchor = inr i.was_committed;
        result = inl (λ e. ground (arith, i.was_active));
        waiting = inl (λ e. ground (arith, i.was_active));
      })

  -- From a sound node every history of proposals, disputes, finalizers, commitments, bound feeds,
  -- oracle proposals and winners that enter it leads to a sound node, as long as a winner enters it
  -- only while it waits for its players.
  pub Reach-IsSound : {m m' : MatchNode} → Reach rt tp sb IsPending m m' → IsSound m → IsSound m'
  Reach-IsSound untouched s = s
  Reach-IsSound (after r st) s = Step-IsSound st (Reach-IsSound r s)

  Step-IsSettled :
      {m m' : MatchNode}
      → Step rt tp sb IsPending m m'
      → m.status ≡ MatchStatus.completed
      → IsSettled m m'
  Step-IsSettled (proposed c w m log h) e =
      absurd (ground (arith, (propose_result-IsProposed rt c w m log h).was_active))
  Step-IsSettled (disputed c reason m log h) e =
      let i = dispute_result-IsDisputed rt c reason m log h in ground (arith, i.after)
  Step-IsSettled (finalized c p call t h) e =
      absurd (ground (arith, (run_finalizer-IsOutcome rt tp c p call t h).1.0.match_was_active))
  Step-IsSettled (advanced c p call t m m' h parent left waiting) e =
      absurd (ground (arith, waiting, e))
  Step-IsSettled (lobby_committed c lobby_id feed_hash m log h) e =
      absurd (
        ground (arith, (commit_match_lobby-IsCommitted rt c lobby_id feed_hash m log h).was_active))
  Step-IsSettled (feed_bound c m log h) e =
      let i = bind_match_feed-IsBound rt sb c m log h in ground (arith, i.after)
  Step-IsSettled (oracle_proposed c m log h) e =
      absurd (ground (arith, (propose_result_oracle-IsOracleProposal rt sb c m log h).was_active))

  -- A completed match stays completed, for the same winner and the same players, through every
  -- history of the instructions on it, as long as a winner enters a match only while that waits for
  -- its players.
  pub Reach-IsSettled :
      {m m' : MatchNode}
      → Reach rt tp sb IsPending m m'
      → m.status ≡ MatchStatus.completed
      → IsSettled m m'
  Reach-IsSettled untouched e = (e, refl, refl, refl)
  Reach-IsSettled (after r st) e =
      let before = Reach-IsSettled r e in
      let kept = Step-IsSettled st before.0 in
      (kept.0, kept.1 ∙ before.1, kept.2 ∙ before.2, kept.3 ∙ before.3)

  Step-commitment :
      (Enters : MatchNode → Type 0) {m m' : MatchNode} (k : MatchCommitment)
      → Step rt tp sb Enters m m'
      → m.commitment ≡ some k
      → m'.commitment ≡ some k
  unfolding fill_envelope
  Step-commitment Enters k (proposed c w m log h) e =
      (propose_result-IsProposed rt c w m log h).same_commitment ∙ e
  Step-commitment Enters k (disputed c reason m log h) e =
      ap (λ x. x.commitment) (dispute_result-IsDisputed rt c reason m log h).after ∙ e
  Step-commitment Enters k (finalized c p call t h) e =
      ap (λ x. x.commitment) (run_finalizer-IsOutcome rt tp c p call t h).1.0.match_after ∙ e
  Step-commitment Enters k (advanced c p call t m m' h parent left enters) e =
      let (i, w, filled) = advanced-filled c p call t m m' h parent left in
      ap (λ x. x.commitment) filled ∙ fill_slot-commitment m i w ∙ e
  Step-commitment Enters k (lobby_committed c lobby_id feed_hash m log h) e =
      let i = commit_match_lobby-IsCommitted rt c lobby_id feed_hash m log h in
      absurd (ground (arith, i.was_uncommitted))
  Step-commitment Enters k (feed_bound c m log h) e =
      ap (λ x. x.commitment) (bind_match_feed-IsBound rt sb c m log h).after ∙ e
  Step-commitment Enters k (oracle_proposed c m log h) e =
      ap (λ x. x.commitment) (propose_result_oracle-IsOracleProposal rt sb c m log h).after ∙ e

  -- A commitment to a lobby, once made, is never changed: it keeps the identities of the players and
  -- the hash of the feed through every history of the instructions on the match, whichever winners
  -- enter it and whenever.
  pub Reach-commitment :
      (Enters : MatchNode → Type 0) {m m' : MatchNode} (k : MatchCommitment)
      → Reach rt tp sb Enters m m'
      → m.commitment ≡ some k
      → m'.commitment ≡ some k
  Reach-commitment Enters k untouched e = e
  Reach-commitment Enters k (after r st) e =
      Step-commitment Enters k st (Reach-commitment Enters k r e)
