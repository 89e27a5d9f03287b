-- ===== src/Closing/Lost.antt =====
-- A participant's account that is closed before its refund was paid.
use bracket_chain_programs.Prelude.{
  ℕ, ◌≡◌, ◌≢◌, sym, subst, ap, ◌∙◌, ◌⊎◌, inl, inr, true, false, Option, none, some, List, [], ◌∷◌,
  arith, All, Has, IsDistinct, Option-cases,
}
use bracket_chain_programs.Errors.{ok, Result-cases, >>=-eq-ok}
use bracket_chain_programs.State.Tournament.{Tournament}
use bracket_chain_programs.State.Participant.{Participant}
use bracket_chain_programs.Runtime.{Runtime, TokenProgram}
use bracket_chain_programs.Platform.{SystemProgram, AccountCloser}
use bracket_chain_programs.Refund.Process.{
  TokenAccount, Refunding, return_deposit, refund_deposit, refund_one, refund_pairs,
  process_refunds,
}
use bracket_chain_programs.Refund.Handlers.{
  RefundContext, cancel_tournament, partial_refund_chunk, flip_cancelled,
}
use bracket_chain_programs.Refund.Once.{
  IsEntrant, IsPaid, IsRefunded, refund_one-cases, participants_of, refund_pairs-IsRefunded,
}
use bracket_chain_programs.Closing.Handler.{CloseContext, Closing, close_tournament}
use bracket_chain_programs.Closing.Swept.{IsEmptied, close_children-IsSwept}
use bracket_chain_programs.Closing.Outcome.{close_tournament-IsCall}

All-Has : (P : ℕ → Type 0) (ks : List ℕ) (k : ℕ) → All P ks → Has k ks → P k
All-Has P [] k all here = absurd here
All-Has P (j ∷ ks) k all (inl same) = subst P (sym same) all.0
All-Has P (j ∷ ks) k all (inr there) = All-Has P ks k all.1 there

-- Refunds change no owner, and each needs an account that the program owns.
module _ (rt : Runtime) (tp : TokenProgram) (vault : ℕ) where
  refund_deposit-store :
      (o : Option TokenAccount) (s s' : Refunding tp.Ledger)
      → refund_deposit rt tp vault o s ≡ ok s'
      → s'.store ≡ s.store
  unfolding refund_deposit return_deposit
  refund_deposit-store none s s' h = ground (arith, h)
  refund_deposit-store (some ata) s s' h =
      elim (Option-cases
        (tp.transfer s.ledger vault ata.key s.tournament.key s.tournament.organizer_deposit)) [
          | inl failed ↦ ground arith
          | inr (l, sent) ↦ ground arith
        ]

  refund_one-owner :
      (k ata j : ℕ) (s s' : Refunding tp.Ledger)
      → refund_one rt tp vault k ata s ≡ ok s'
      → (s'.store j).owner ≡ (s.store j).owner
  refund_one-owner k ata j s s' h = kept (refund_one-cases rt tp vault k ata s s' h)
    where
      kept :
          ((p : Participant) × IsEntrant rt tp vault s k p
            × (((p.refund_paid ≡ true) × (s' ≡ s)) ⊎ IsPaid rt tp vault s s' k ata p))
          → (s'.store j).owner ≡ (s.store j).owner
      kept (p, e, inl (paid, same)) = ap (λ t. (t.store j).owner) same
      kept (p, e, inr i) = ground (arith, i.store_after)

  refund_pairs-owner :
      (accounts : List ℕ) (j : ℕ) (s s' : Refunding tp.Ledger)
      → refund_pairs rt tp vault accounts s ≡ ok s'
      → (s'.store j).owner ≡ (s.store j).owner
  unfolding refund_pairs
  refund_pairs-owner [] j s s' h = ground (arith, h)
  refund_pairs-owner (k ∷ []) j s s' h = absurd (ground arith)
  refund_pairs-owner (k ∷ ata ∷ rest) j s s' h =
      let (s1, first, later) =
        >>=-eq-ok (refund_one rt tp vault k ata s) (refund_pairs rt tp vault rest) h in
      refund_pairs-owner rest j s1 s' later ∙ refund_one-owner k ata j s s1 first

  process_refunds-owned :
      (o : Option TokenAccount) (accounts : List ℕ) (k : ℕ) (s s' : Refunding tp.Ledger)
      → Has k (participants_of rt tp vault accounts)
      → process_refunds rt tp vault o accounts s ≡ ok s'
      → (s.store k).owner ≡ rt.program_id
  unfolding process_refunds
  process_refunds-owned o accounts k s s' there h =
      elim (Result-cases (refund_deposit rt tp vault o s)) [
        | inr (x, failed) ↦ absurd (ground arith)
        | inl (s1, deposited) ↦
            let paid : refund_pairs rt tp vault accounts s1 ≡ ok s' = ground arith in
            let r =
              All-Has (IsRefunded rt tp vault s') (participants_of rt tp vault accounts) k
                (refund_pairs-IsRefunded rt tp vault accounts s1 s' paid) there in
            ap (λ x. (x k).owner) (sym (refund_deposit-store o s s1 deposited))
            ∙ sym (refund_pairs-owner accounts k s1 s' paid)
            ∙ r.entrant.owned
      ]

flip_cancelled-store :
    {L : Type 0} (c : RefundContext) (s s' : Refunding L)
    → flip_cancelled c s ≡ ok s'
    → s'.store ≡ s.store
unfolding flip_cancelled
flip_cancelled-store c s s' h = ground arith

module _ (rt : Runtime) (tp : TokenProgram) (sys : SystemProgram) (closer : AccountCloser tp) where
  closed-released :
      (c : CloseContext) (t : Tournament) (s s' : Closing tp.Ledger) (k : ℕ)
      → IsDistinct (c.organizer ∷ c.remaining_accounts)
      → close_tournament rt tp sys closer c false t s ≡ ok s'
      → Has k c.remaining_accounts
      → (s.store k).lamports ≢ 0
      → (s'.store k).owner ≡ sys.id
  closed-released c t s s' k d h there funded =
      let i = close_tournament-IsCall rt tp sys closer c t false s s' h in
      let swept =
        close_children-IsSwept rt sys t.key c.organizer c.remaining_accounts s.store i.store 0
          i.accounts_closed d i.swept in
      let emptied =
        All-Has (IsEmptied rt sys t.key c.organizer s.store i.store) c.remaining_accounts k
          swept.emptied there in
      ground (arith, emptied.1, i.rooted, funded)

  -- After a call of `close_tournament` that succeeded, not for the root and with distinct accounts
  -- other than the organizer's, no refund call goes through that names one of the accounts it
  -- closed as a participant, paid or not: neither `cancel_tournament` nor `partial_refund_chunk`,
  -- whoever calls and whatever the tournament and the ledger are by then. The system program's
  -- address is not the program's.
  pub closed_never_refunded :
      (c : CloseContext) (t : Tournament) (s s' : Closing tp.Ledger) (k : ℕ) (rc : RefundContext)
      (r r' : Refunding tp.Ledger)
      → sys.id ≢ rt.program_id
      → IsDistinct (c.organizer ∷ c.remaining_accounts)
      → close_tournament rt tp sys closer c false t s ≡ ok s'
      → Has k c.remaining_accounts
      → (s.store k).lamports ≢ 0
      → r.store ≡ s'.store
      → Has k (participants_of rt tp rc.vault rc.remaining_accounts)
      → (cancel_tournament rt tp rc r ≢ ok r') × (partial_refund_chunk rt tp rc r ≢ ok r')
  unfolding cancel_tournament partial_refund_chunk
  closed_never_refunded c t s s' k rc r r' foreign d h closed funded same there =
      let released : (r.store k).owner ≡ sys.id =
        ap (λ x. (x k).owner) same ∙ closed-released c t s s' k d h closed funded in
      (
        λ cancelled. elim (Result-cases (flip_cancelled rc r)) [
          | inr (x, failed) ↦ ground arith
          | inl (r1, flipped) ↦ foreign (
              sym released
              ∙ ap (λ x. (x k).owner) (sym (flip_cancelled-store rc r r1 flipped))
              ∙ process_refunds-owned rt tp rc.vault rc.organizer_token_account
                  rc.remaining_accounts k r1 r' there (ground arith))
        ],
        λ refunded. foreign (
            sym released
            ∙ process_refunds-owned rt tp rc.vault rc.organizer_token_account rc.remaining_accounts
                k r r' there (ground arith)),
      )
