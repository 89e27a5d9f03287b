-- ===== src/Refund/Live.antt =====
-- Nobody can keep a participant from its refund: a chunk with one pair goes through.
use bracket_chain_programs.Prelude.{
  ℕ, ◌+◌, ◌^◌, ◌≤◌, ◌<◌, ◌≡◌, true, none, [], ◌∷◌, arith, Bool-cases, inl, inr,
}
use bracket_chain_programs.Errors.{ok}
use bracket_chain_programs.State.Tournament.{TournamentStatus}
use bracket_chain_programs.State.Participant.{Participant}
use bracket_chain_programs.Runtime.{Runtime, TokenProgram, validate_token_account}
use bracket_chain_programs.Store.{info_at, write, of_participant}
use bracket_chain_programs.Events.{emit, refund_issued}
use bracket_chain_programs.Refund.Process.{
  Refunding, refund_deposit, pay_refund, refund_one, refund_pairs, process_refunds,
}
use bracket_chain_programs.Refund.Handlers.{
  RefundContext, check_refund_accounts, partial_refund_chunk,
}
use bracket_chain_programs.Refund.Once.{IsEntrant, IsRefunded, refund_one-IsRefunded}

module _ (rt : Runtime) (tp : TokenProgram) (vault : ℕ) (s : Refunding tp.Ledger) (ata : ℕ)
    (p : Participant) where
  -- The token account is the participant's and can take the fee, which the vault can pay.
  pub record CanRefund : Type 0 where
    pub valid :
        validate_token_account tp.id (info_at s.store ata) p.wallet s.tournament.token_mint ≡ ok tt
    pub can_pay : tp.CanPay s.ledger vault ata s.tournament.key
    pub covered : s.tournament.entry_fee ≤ tp.amount s.ledger vault
    pub fits : tp.amount s.ledger ata + s.tournament.entry_fee < 2 ^ 64

  -- What the payment writes, where the ledger becomes `l`.
  abbrev paying : ℕ → tp.Ledger → Refunding tp.Ledger
  paying k l = record s {
    store =
        write s.store k
          (record (s.store k) { contents = of_participant (record p { refund_paid = true }) });
    ledger = l;
    log = emit (refund_issued s.tournament.key p.wallet s.tournament.entry_fee) s.log;
  }

  refund_one-total :
      (k : ℕ)
      → IsEntrant rt tp vault s k p
      → CanRefund
      → (s' : Refunding tp.Ledger) × (refund_one rt tp vault k ata s ≡ ok s')
  unfolding refund_one pay_refund
  refund_one-total k e can = elim (Bool-cases p.refund_paid) [
    | inl paid ↦ (s, ground (arith, e.owned, e.stored, e.registered))
    | inr unpaid ↦
        let (l, sent) =
          tp.transfer_total s.ledger vault ata s.tournament.key s.tournament.entry_fee can.can_pay
            can.covered can.fits in
        (paying k l, ground (arith, e.owned, e.stored, e.registered, can.valid, sent))
  ]

-- In a partially cancelled tournament, whoever calls, `partial_refund_chunk` with one participant
-- of the tournament and its token account, and none of the organizer's, succeeds and leaves the
-- refund paid, if the token account can take the entry fee and the vault holds it.
pub partial_refund_chunk-total :
    (rt : Runtime) (tp : TokenProgram) (c : RefundContext) (s : Refunding tp.Ledger) (k ata : ℕ)
    (p : Participant)
    → c.organizer_token_account ≡ none
    → c.remaining_accounts ≡ k ∷ ata ∷ []
    → check_refund_accounts rt c s ≡ ok tt
    → s.tournament.status ≡ TournamentStatus.partial_cancelled
    → IsEntrant rt tp c.vault s k p
    → CanRefund rt tp c.vault s ata p
    → (s' : Refunding tp.Ledger) × (partial_refund_chunk rt tp c s ≡ ok s')
      × IsRefunded rt tp c.vault s' k
unfolding partial_refund_chunk process_refunds refund_deposit refund_pairs
partial_refund_chunk-total rt tp c s k ata p no_deposit pair checked status e can =
    let (s', done) = refund_one-total rt tp c.vault s ata p k e can in
    (
      s',
      rw (pair, no_deposit) (ground (arith, checked, status, done)),
      refund_one-IsRefunded rt tp c.vault k ata s s' done,
    )
