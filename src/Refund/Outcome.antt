-- ===== src/Refund/Outcome.antt =====
-- What a call of `cancel_tournament` or `partial_refund_chunk` has done when it succeeds.
use bracket_chain_programs.Prelude.{IsDistinct, ℕ, ◌≡◌, ◌⊎◌, inl, inr, subst, List, arith, All}
use bracket_chain_programs.Errors.{ok, Result-cases}
use bracket_chain_programs.State.Tournament.{TournamentStatus}
use bracket_chain_programs.Runtime.{Runtime, TokenProgram}
use bracket_chain_programs.Refund.Process.{Refunding, refund_deposit, process_refunds}
use bracket_chain_programs.Refund.Handlers.{
  RefundContext, flip_cancelled, cancel_tournament, partial_refund_chunk,
}
use bracket_chain_programs.Refund.Once.{IsRefunded, participants_of, refund_pairs-IsRefunded}
use bracket_chain_programs.Refund.Again.{process_refunds-again, flip_cancelled-tournament}
use bracket_chain_programs.Refund.Solvent.{
  AreCovered, IsOutside, IsBalanced, process_refunds-IsBalanced,
}

module _ (rt : Runtime) (tp : TokenProgram) (c : RefundContext) (ks : List ℕ) where
  -- What both calls ask of the accounts that they are given, for a list of participants.
  pub record IsProper : Type 0 where
    pub distinct : IsDistinct ks
    pub covered : AreCovered c.vault ks c.remaining_accounts
    pub outside : IsOutside rt tp c.vault ks c.organizer_token_account

  -- The participants that were handed over are refunded, the rest of the tournament's account is as
  -- it was but for the status, and the vault's balance has moved with its debt.
  pub record IsProcessed (status : TournamentStatus) (s s' : Refunding tp.Ledger) : Type 0 where
    pub refunded :
        All (IsRefunded rt tp c.vault s') (participants_of rt tp c.vault c.remaining_accounts)
    pub tournament_after : s'.tournament ≡ record (s.tournament) {
      status = status;
      organizer_deposit_refunded = s'.tournament.organizer_deposit_refunded;
    }
    pub balanced : IsBalanced rt tp c.vault ks s s'

  process_refunds-IsProcessed :
      (s s' : Refunding tp.Ledger)
      → IsProper
      → process_refunds rt tp c.vault c.organizer_token_account c.remaining_accounts s ≡ ok s'
      → IsProcessed s.tournament.status s s'
  unfolding process_refunds
  process_refunds-IsProcessed s s' i h =
      elim (Result-cases (refund_deposit rt tp c.vault c.organizer_token_account s)) [
        | inl (t, deposited) ↦ record {
          refunded = refund_pairs-IsRefunded rt tp c.vault c.remaining_accounts t s' (ground arith);
          tournament_after =
              (process_refunds-again rt tp c.vault c.organizer_token_account c.remaining_accounts s
                s' h).0;
          balanced =
              process_refunds-IsBalanced rt tp c.vault ks c.organizer_token_account
                c.remaining_accounts s s' i.distinct i.covered i.outside h;
        }
        | inr (x, failed) ↦ absurd (ground arith)
      ]

  flip_cancelled-authority :
      (s s' : Refunding tp.Ledger)
      → flip_cancelled c s ≡ ok s'
      → ((s.tournament.status ≡ TournamentStatus.cancelled) ⊎ (c.caller ≡ s.tournament.organizer))
        × (s'.store ≡ s.store)
        × (s'.ledger ≡ s.ledger)
  unfolding flip_cancelled
  flip_cancelled-authority s s' h = ground arith

  -- A call of `cancel_tournament` that succeeds found the tournament cancelled, or was the
  -- organizer's during registration or bracket initialization. If its pairs name participants of a
  -- list without repetition, and no account to be paid is the vault, it leaves the tournament
  -- cancelled and otherwise as it was but for the flag of the deposit, the participants that it was
  -- given refunded, and the vault's balance lowered by exactly what has been taken off its debt to
  -- the list and the organizer.
  pub cancel_tournament-outcome :
      (s s' : Refunding tp.Ledger)
      → IsProper
      → cancel_tournament rt tp c s ≡ ok s'
      → ((s.tournament.status ≡ TournamentStatus.cancelled)
          ⊎ ((c.caller ≡ s.tournament.organizer)
              × ((s.tournament.status ≡ TournamentStatus.registration)
                  ⊎ (s.tournament.status ≡ TournamentStatus.pending_bracket_init))))
        × IsProcessed TournamentStatus.cancelled s s'
  unfolding cancel_tournament
  cancel_tournament-outcome s s' i h = elim (Result-cases (flip_cancelled c s)) [
    | inl (t, flipped) ↦
        let authority = flip_cancelled-authority s t flipped in
        let same = flip_cancelled-tournament c s t flipped in
        let done = process_refunds-IsProcessed t s' i (ground arith) in
        (
          ground (arith, authority.0),
          record {
            refunded = done.refunded;
            tournament_after = ground (arith, done.tournament_after, same);
            balanced = ground (arith, done.balanced, authority.1, authority.2, same);
          },
        )
    | inr (x, failed) ↦ absurd (ground arith)
  ]

  -- A call of `partial_refund_chunk` that succeeds found the tournament partially cancelled. If its
  -- pairs name participants of a list without repetition, and no account to be paid is the vault,
  -- it leaves the tournament as it was but for the flag of the deposit, the participants that it
  -- was given refunded, and the vault's balance lowered by exactly what has been taken off its debt
  -- to the list and the organizer.
  pub partial_refund_chunk-outcome :
      (s s' : Refunding tp.Ledger)
      → IsProper
      → partial_refund_chunk rt tp c s ≡ ok s'
      → (s.tournament.status ≡ TournamentStatus.partial_cancelled)
        × IsProcessed TournamentStatus.partial_cancelled s s'
  unfolding partial_refund_chunk
  partial_refund_chunk-outcome s s' i h =
      let found : s.tournament.status ≡ TournamentStatus.partial_cancelled = ground arith in
      (
        found,
        subst (λ st. IsProcessed st s s') found (process_refunds-IsProcessed s s' i (ground arith)),
      )
