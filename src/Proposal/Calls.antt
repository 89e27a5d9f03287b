-- ===== src/Proposal/Calls.antt =====
-- The six finalizers as one type of calls, and what each has checked when it succeeds.
use bracket_chain_programs.Prelude.{
  ℕ, ◌≡◌, refl, ◌≢◌, ◌⊎◌, inl, inr, Bool, true, false, List, arith, ◌≤ℤ◌,
}
use bracket_chain_programs.Errors.{Result, ok, err, Result-cases}
use bracket_chain_programs.State.Tournament.{SettlementMode}
use bracket_chain_programs.State.MatchNode.{ProposalSource}
use bracket_chain_programs.Runtime.{Runtime, TokenProgram}
use bracket_chain_programs.Settlement.Finalize.{Settlement}
use bracket_chain_programs.Proposal.Finalizers.{
  FinalizeContext, Players, Finalized, settle, settle_and_credit, report, confirm, claim,
  force_claim, resolve, settle_placements, report_result, confirm_result, claim_result,
  force_claim_disputed, resolve_dispute, settle_final,
}

-- A call with its arguments: the winner where the caller names one, and the placements.
pub data Finalizer : Type 0 where
  reports resolves : ℕ → List ℕ → Finalizer
  confirms claims force_claims settles : List ℕ → Finalizer

abbrev pub settlement_of : {L : Type 0} → Result (Finalized L) → Result (Settlement L)
settlement_of (ok f) = ok f.settlement
settlement_of (err e) = err e

module _ (rt : Runtime) (tp : TokenProgram) where
  unfoldable pub run_finalizer :
      FinalizeContext tp.Ledger → Players → Finalizer → Result (Settlement tp.Ledger)
  run_finalizer c p (reports winner placements) = report_result rt tp c winner placements
  run_finalizer c p (resolves winner placements) =
      settlement_of (resolve_dispute rt tp c p winner placements)
  run_finalizer c p (confirms placements) = settlement_of (confirm_result rt tp c p placements)
  run_finalizer c p (claims placements) = settlement_of (claim_result rt tp c p placements)
  run_finalizer c p (force_claims placements) =
      settlement_of (force_claim_disputed rt tp c p placements)
  run_finalizer c p (settles placements) = settlement_of (settle_final rt tp c p placements)

-- The winner that a call settles for, and its list of placements.
abbrev pub winner_of : {L : Type 0} → FinalizeContext L → Finalizer → ℕ
winner_of c (reports winner placements) = winner
winner_of c (resolves winner placements) = winner
winner_of c (confirms placements) = c.match_account.proposed_winner
winner_of c (claims placements) = c.match_account.proposed_winner
winner_of c (force_claims placements) = c.match_account.proposed_winner
winner_of c (settles placements) = c.match_account.proposed_winner

abbrev pub placements_of : Finalizer → List ℕ
placements_of (reports winner placements) = placements
placements_of (resolves winner placements) = placements
placements_of (confirms placements) = placements
placements_of (claims placements) = placements
placements_of (force_claims placements) = placements
placements_of (settles placements) = placements

abbrev pub trusted_of : Finalizer → Bool
trusted_of (reports winner placements) = true
trusted_of (resolves winner placements) = true
trusted_of (confirms placements) = false
trusted_of (claims placements) = false
trusted_of (force_claims placements) = false
trusted_of (settles placements) = true

-- Who may make a call, and when.
abbrev pub Authority : {L : Type 0} → FinalizeContext L → Finalizer → Type 0
Authority c (reports winner placements) =
    (c.signer ≡ c.tournament.organizer)
    × (c.tournament.settlement_mode ≡ SettlementMode.organizer_only)
Authority c (resolves winner placements) =
    (c.signer ≡ c.tournament.organizer) × (c.match_account.disputed ≡ true)
Authority c (confirms placements) =
    (c.match_account.proposal_source ≢ ProposalSource.no_source)
    × (c.match_account.disputed ≡ false)
    × ((c.signer ≡ c.match_account.player_a) ⊎ (c.signer ≡ c.match_account.player_b))
    × (c.signer ≢ c.match_account.proposer)
Authority c (claims placements) =
    (c.match_account.proposal_source ≢ ProposalSource.no_source)
    × (c.match_account.disputed ≡ false)
    × (c.match_account.claim_deadline ≤ℤ c.now)
Authority c (force_claims placements) =
    (c.match_account.proposal_source ≢ ProposalSource.no_source)
    × (c.match_account.disputed ≡ true)
    × (c.match_account.claim_deadline ≤ℤ c.now)
Authority c (settles placements) =
    (c.signer ≡ c.tournament.arbitrator)
    × (c.match_account.proposal_source ≢ ProposalSource.no_source)
    × (c.match_account.disputed ≡ false)
    × (c.match_account.claim_deadline ≤ℤ c.now)

module _ (tp : TokenProgram) (c : FinalizeContext tp.Ledger) (p : Players) where
  -- The call of `finalize_match` behind a settlement: they differ in the log at most.
  abbrev pub Settles : ℕ → List ℕ → Bool → Settlement tp.Ledger → Type 0
  Settles winner placements trusted s =
      (s0 : Settlement tp.Ledger) × (settle tp c winner placements trusted ≡ ok s0)
      × (s ≡ record s0 { log = s.log })

  settle_and_credit-Settles :
      (winner : ℕ) (placements : List ℕ) (trusted : Bool) (f : Finalized tp.Ledger)
      → settle_and_credit tp c p winner placements trusted ≡ ok f
      → settle tp c winner placements trusted ≡ ok f.settlement
  unfolding settle_and_credit
  settle_and_credit-Settles winner placements trusted f h =
      elim (Result-cases (settle tp c winner placements trusted)) [
        | inl (s, e) ↦ ground arith
        | inr (x, e) ↦ absurd (ground arith)
      ]

  confirm-Settles :
      (placements : List ℕ) (s : Settlement tp.Ledger)
      → settlement_of (confirm tp c p placements) ≡ ok s
      → Authority c (confirms placements)
        × Settles c.match_account.proposed_winner placements false s
  unfolding confirm
  confirm-Settles placements s h =
      elim (Result-cases
        (settle_and_credit tp c p c.match_account.proposed_winner placements false)) [
          | inl (f, e) ↦ (
            ground arith,
            (
              f.settlement,
              settle_and_credit-Settles c.match_account.proposed_winner placements false f e,
              ground arith,
            ),
          )
          | inr (x, e) ↦ absurd (ground arith)
        ]

  claim-Settles :
      (placements : List ℕ) (s : Settlement tp.Ledger)
      → settlement_of (claim tp c p placements) ≡ ok s
      → Authority c (claims placements) × Settles c.match_account.proposed_winner placements false s
  unfolding claim
  claim-Settles placements s h =
      elim (Result-cases
        (settle_and_credit tp c p c.match_account.proposed_winner placements false)) [
          | inl (f, e) ↦ (
            ground arith,
            (
              f.settlement,
              settle_and_credit-Settles c.match_account.proposed_winner placements false f e,
              ground arith,
            ),
          )
          | inr (x, e) ↦ absurd (ground arith)
        ]

  force_claim-Settles :
      (placements : List ℕ) (s : Settlement tp.Ledger)
      → settlement_of (force_claim tp c p placements) ≡ ok s
      → Authority c (force_claims placements)
        × Settles c.match_account.proposed_winner placements false s
  unfolding force_claim
  force_claim-Settles placements s h =
      elim (Result-cases
        (settle_and_credit tp c p c.match_account.proposed_winner placements false)) [
          | inl (f, e) ↦ (
            ground arith,
            (
              f.settlement,
              settle_and_credit-Settles c.match_account.proposed_winner placements false f e,
              ground arith,
            ),
          )
          | inr (x, e) ↦ absurd (ground arith)
        ]

  settle_placements-Settles :
      (placements : List ℕ) (s : Settlement tp.Ledger)
      → c.signer ≡ c.tournament.arbitrator
      → settlement_of (settle_placements tp c p placements) ≡ ok s
      → Authority c (settles placements) × Settles c.match_account.proposed_winner placements true s
  unfolding settle_placements
  settle_placements-Settles placements s a h =
      elim (Result-cases
        (settle_and_credit tp c p c.match_account.proposed_winner placements true)) [
          | inl (f, e) ↦ (
            ground arith,
            (
              f.settlement,
              settle_and_credit-Settles c.match_account.proposed_winner placements true f e,
              ground arith,
            ),
          )
          | inr (x, e) ↦ absurd (ground arith)
        ]

  resolve-Settles :
      (winner : ℕ) (placements : List ℕ) (s : Settlement tp.Ledger)
      → c.signer ≡ c.tournament.organizer
      → settlement_of (resolve tp c p winner placements) ≡ ok s
      → Authority c (resolves winner placements) × Settles winner placements true s
  unfolding resolve
  resolve-Settles winner placements s a h =
      elim (Result-cases (settle_and_credit tp c p winner placements true)) [
        | inl (f, e) ↦ (
          ground arith,
          (f.settlement, settle_and_credit-Settles winner placements true f e, ground arith),
        )
        | inr (x, e) ↦ absurd (ground arith)
      ]

  report-Settles :
      (winner : ℕ) (placements : List ℕ) (s : Settlement tp.Ledger)
      → c.signer ≡ c.tournament.organizer
      → report tp c winner placements ≡ ok s
      → Authority c (reports winner placements) × Settles winner placements true s
  unfolding report
  report-Settles winner placements s a h = (ground arith, (s, ground arith, refl))

-- A finalizer that succeeds had the authority that its kind asks for, and its settlement is that of
-- `finalize_match` for its winner, its placements and its trust, up to the log.
module _ (rt : Runtime) (tp : TokenProgram) (c : FinalizeContext tp.Ledger) (p : Players) where
  pub run_finalizer-Settles :
      (call : Finalizer) (s : Settlement tp.Ledger)
      → run_finalizer rt tp c p call ≡ ok s
      → Authority c call
        × Settles tp c p (winner_of c call) (placements_of call) (trusted_of call) s
  unfolding run_finalizer report_result confirm_result claim_result force_claim_disputed
      resolve_dispute settle_final
  run_finalizer-Settles (reports winner placements) s h =
      report-Settles tp c p winner placements s (ground arith) (ground arith)
  run_finalizer-Settles (resolves winner placements) s h =
      resolve-Settles tp c p winner placements s (ground arith) (ground arith)
  run_finalizer-Settles (confirms placements) s h =
      confirm-Settles tp c p placements s (ground arith)
  run_finalizer-Settles (claims placements) s h = claim-Settles tp c p placements s (ground arith)
  run_finalizer-Settles (force_claims placements) s h =
      force_claim-Settles tp c p placements s (ground arith)
  run_finalizer-Settles (settles placements) s h =
      settle_placements-Settles tp c p placements s (ground arith) (ground arith)
