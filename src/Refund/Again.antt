-- ===== src/Refund/Again.antt =====
-- A refund call that is sent again, by anyone, pays nothing more.
use bracket_chain_programs.Prelude.{
  ℕ, ◌≡◌, refl, Bool, ◌∙◌, ap, inl, inr, true, Option, none, some, List, [], ◌∷◌, arith,
  Option-cases, All, ◌⊎◌,
}
use bracket_chain_programs.Errors.{ok, Result-cases, >>=-eq-ok}
use bracket_chain_programs.State.Tournament.{Tournament, TournamentStatus}
use bracket_chain_programs.State.Participant.{Participant}
use bracket_chain_programs.Runtime.{Runtime, TokenProgram}
use bracket_chain_programs.Accounts.{check_tournament, check_vault}
use bracket_chain_programs.Refund.Process.{
  TokenAccount, Refunding, return_deposit, refund_deposit, refund_one, refund_pairs,
  process_refunds,
}
use bracket_chain_programs.Refund.Handlers.{
  RefundContext, flip_cancelled, check_refund_accounts, cancel_tournament,
}
use bracket_chain_programs.Refund.Once.{
  IsEntrant, IsPaid, IsRefunded, participants_of, refund_one-cases, refund_one-again,
  refund_pairs-IsRefunded,
}

-- What the return of the deposit leaves of the tournament: all but its flag.
abbrev pub KeepsTournament : Tournament → Tournament → Type 0
KeepsTournament t t' = t' ≡ record t { organizer_deposit_refunded = t'.organizer_deposit_refunded }

module _ (rt : Runtime) (tp : TokenProgram) (vault : ℕ) where
  refund_pairs-again :
      (accounts : List ℕ) (s0 s1 s : Refunding tp.Ledger)
      → refund_pairs rt tp vault accounts s0 ≡ ok s1
      → All (IsRefunded rt tp vault s) (participants_of rt tp vault accounts)
      → refund_pairs rt tp vault accounts s ≡ ok s
  unfolding refund_pairs
  refund_pairs-again [] s0 s1 s h r = refl
  refund_pairs-again (k ∷ []) s0 s1 s h r = absurd (ground arith)
  refund_pairs-again (k ∷ ata ∷ rest) s0 s1 s h r =
      let (t, first, later) =
        >>=-eq-ok (refund_one rt tp vault k ata s0) (refund_pairs rt tp vault rest) h in
      rw (refund_one-again rt tp vault k ata s r.0) (refund_pairs-again rest t s1 s later r.1)

  refund_one-tournament :
      (k ata : ℕ) (s s' : Refunding tp.Ledger)
      → refund_one rt tp vault k ata s ≡ ok s'
      → s'.tournament ≡ s.tournament
  refund_one-tournament k ata s s' h = same (refund_one-cases rt tp vault k ata s s' h)
    where
      same :
          ((p : Participant) × IsEntrant rt tp vault s k p
            × (((p.refund_paid ≡ true) × (s' ≡ s)) ⊎ IsPaid rt tp vault s s' k ata p))
          → s'.tournament ≡ s.tournament
      same (p, e, inl (paid, unchanged)) = ap (λ t. t.tournament) unchanged
      same (p, e, inr i) = i.same_tournament

  pub refund_pairs-tournament :
      (accounts : List ℕ) (s s' : Refunding tp.Ledger)
      → refund_pairs rt tp vault accounts s ≡ ok s'
      → s'.tournament ≡ s.tournament
  unfolding refund_pairs
  refund_pairs-tournament [] s s' h = ground (arith, h)
  refund_pairs-tournament (k ∷ []) s s' h = absurd (ground arith)
  refund_pairs-tournament (k ∷ ata ∷ rest) s s' h =
      let (t, first, later) =
        >>=-eq-ok (refund_one rt tp vault k ata s) (refund_pairs rt tp vault rest) h in
      refund_pairs-tournament rest t s' later ∙ refund_one-tournament k ata s t first

  pub refund_deposit-again :
      (o : Option TokenAccount) (s s1 s2 : Refunding tp.Ledger)
      → refund_deposit rt tp vault o s ≡ ok s1
      → s2.tournament ≡ s1.tournament
      → KeepsTournament s.tournament s1.tournament × (refund_deposit rt tp vault o s2 ≡ ok s2)
  unfolding refund_deposit return_deposit
  refund_deposit-again none s s1 s2 h e = (ground arith, refl)
  refund_deposit-again (some ata) s s1 s2 h e =
      elim (Option-cases
        (tp.transfer s.ledger vault ata.key s.tournament.key s.tournament.organizer_deposit)) [
          | inl failed ↦ (ground arith, ground arith)
          | inr (l, sent) ↦ (ground arith, ground arith)
        ]

  pub process_refunds-again :
      (o : Option TokenAccount) (accounts : List ℕ) (s s' : Refunding tp.Ledger)
      → process_refunds rt tp vault o accounts s ≡ ok s'
      → KeepsTournament s.tournament s'.tournament
        × (process_refunds rt tp vault o accounts s' ≡ ok s')
  unfolding process_refunds
  process_refunds-again o accounts s s' h = elim (Result-cases (refund_deposit rt tp vault o s)) [
    | inl (s1, deposited) ↦
        let paid : refund_pairs rt tp vault accounts s1 ≡ ok s' = ground arith in
        let same = refund_pairs-tournament accounts s1 s' paid in
        let (kept, again) = refund_deposit-again o s s1 s' deposited same in
        let pairs_again =
          refund_pairs-again accounts s1 s' s' paid
            (refund_pairs-IsRefunded rt tp vault accounts s1 s' paid) in
        (ground (arith, kept, same), ground (arith, again, pairs_again))
    | inr (x, failed) ↦ absurd (ground arith)
  ]

module _ (rt : Runtime) where
  -- The account constraints do not read the caller, the status or the deposit's flag.
  check_refund_accounts-same :
      {L : Type 0} (c : RefundContext) (s s' : Refunding L) (caller : ℕ) (status : TournamentStatus)
      (refunded : Bool)
      → s'.tournament
        ≡ record (s.tournament) { status = status; organizer_deposit_refunded = refunded }
      → check_refund_accounts rt (record c { caller = caller }) s' ≡ check_refund_accounts rt c s
  unfolding check_refund_accounts check_tournament check_vault
  check_refund_accounts-same c s s' caller status refunded e = rw e refl

pub flip_cancelled-tournament :
    {L : Type 0} (c : RefundContext) (s s' : Refunding L)
    → flip_cancelled c s ≡ ok s'
    → s'.tournament ≡ record (s.tournament) { status = TournamentStatus.cancelled }
unfolding flip_cancelled
flip_cancelled-tournament c s s' h = ground arith

module _ (rt : Runtime) (tp : TokenProgram) (c : RefundContext) (s s' : Refunding tp.Ledger) where
  -- A call of `cancel_tournament` that succeeded leaves the tournament cancelled, and the same call
  -- sent again by anyone succeeds and changes nothing: no participant is paid twice, and neither is
  -- the organizer.
  pub cancel_tournament-again :
      (caller : ℕ)
      → cancel_tournament rt tp c s ≡ ok s'
      → (s'.tournament.status ≡ TournamentStatus.cancelled)
        × (cancel_tournament rt tp (record c { caller = caller }) s' ≡ ok s')
  unfolding cancel_tournament flip_cancelled
  cancel_tournament-again caller h = elim (Result-cases (flip_cancelled c s)) [
    | inl (s1, flipped) ↦
        let checked : check_refund_accounts rt c s ≡ ok tt = ground arith in
        let paid : process_refunds rt tp c.vault c.organizer_token_account c.remaining_accounts s1
            ≡ ok s' =
          ground arith in
        let (kept, again) =
          process_refunds-again rt tp c.vault c.organizer_token_account c.remaining_accounts s1 s'
            paid in
        let same : s'.tournament ≡ record (s.tournament) {
          status = TournamentStatus.cancelled;
          organizer_deposit_refunded = s'.tournament.organizer_deposit_refunded;
        } =
          ground (arith, kept, flip_cancelled-tournament c s s1 flipped) in
        let checked_again =
          check_refund_accounts-same rt c s s' caller TournamentStatus.cancelled
            s'.tournament.organizer_deposit_refunded same in
        (ap (λ t. t.status) same, ground (arith, checked, checked_again, again, same))
    | inr (x, failed) ↦ absurd (ground arith)
  ]
