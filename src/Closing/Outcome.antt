-- ===== src/Closing/Outcome.antt =====
-- What a call of `close_tournament` has done when it succeeds.
use bracket_chain_programs.Prelude.{
  ℕ, ◌≡◌, sym, ap, subst, ◌∙◌, ◌⊎◌, inl, inr, Bool, true, false, some, ◌∷◌, arith, IsDistinct,
  if◌then◌else◌,
}
use bracket_chain_programs.Errors.{ok, Result-cases}
use bracket_chain_programs.State.Tournament.{Tournament, TournamentStatus}
use bracket_chain_programs.Events.{emit, tournament_closed}
use bracket_chain_programs.Runtime.{Runtime, TokenProgram}
use bracket_chain_programs.Store.{Store}
use bracket_chain_programs.Platform.{SystemProgram, AccountCloser}
use bracket_chain_programs.Closing.Handler.{
  CloseContext, Closing, is_terminal, close_children, close_root, close_tournament,
}
use bracket_chain_programs.Closing.Swept.{close_children-IsSwept, close_children-again}

module _ (rt : Runtime) (tp : TokenProgram) (sys : SystemProgram) (closer : AccountCloser tp)
    (c : CloseContext) (t : Tournament) where
  -- A tournament that is over.
  abbrev pub IsOver : Type 0
  IsOver =
      (t.status ≡ TournamentStatus.completed)
      ⊎ ((t.status ≡ TournamentStatus.cancelled) ⊎ (t.status ≡ TournamentStatus.partial_cancelled))

  -- The parts of a call that succeeds.
  pub record IsCall (root : Bool) (s s' : Closing tp.Ledger) : Type 0 where
    pub store : Store
    pub accounts_closed : ℕ
    pub terminal : is_terminal t.status ≡ true
    pub swept :
        close_children rt sys t.key c.organizer c.remaining_accounts (s.store, 0)
        ≡ ok (store, accounts_closed)
    pub rooted :
        (if root then close_root rt tp sys closer c t s.ledger store else ok (s.ledger, store))
        ≡ ok (s'.ledger, s'.store)
    pub logged : s'.log ≡ emit (tournament_closed t.key accounts_closed root) s.log

  pub close_tournament-IsCall :
      (root : Bool) (s s' : Closing tp.Ledger)
      → close_tournament rt tp sys closer c root t s ≡ ok s'
      → IsCall root s s'
  unfolding close_tournament
  close_tournament-IsCall root s s' h =
      elim (Result-cases
        (close_children rt sys t.key c.organizer c.remaining_accounts (s.store, 0))) [
          | inr (x, failed) ↦ absurd (ground arith)
          | inl ((store, n), swept) ↦
              elim (Result-cases (
                if root
                then close_root rt tp sys closer c t s.ledger store
                else ok (s.ledger, store))) [
                  | inr (x, failed) ↦ absurd (ground arith)
                  | inl ((ledger, after), rooted) ↦ record {
                    store = store;
                    accounts_closed = n;
                    terminal = ground arith;
                    swept = swept;
                    rooted = ground arith;
                    logged = ground arith;
                  }
                ]
        ]

  -- The root is closed, after the accounts of `store`: what the two external calls have left is
  -- what the call leaves.
  pub record IsRootClosed (ledger : tp.Ledger) (s' : Closing tp.Ledger) (store : Store)
      : Type 0 where
    pub empty_vault : tp.amount ledger c.vault ≡ 0
    pub between : Store
    pub vault_closed :
        closer.close_token_account ledger store c.vault c.organizer t.key
        ≡ some (s'.ledger, between)
    pub root_closed : closer.close_account between t.key c.organizer ≡ some s'.store

  -- A call that does not close the root, and succeeded with distinct accounts other than the
  -- organizer's, succeeds when it is sent again, and changes nothing but the log.
  pub close_tournament-again :
      (s s' : Closing tp.Ledger)
      → IsDistinct (c.organizer ∷ c.remaining_accounts)
      → close_tournament rt tp sys closer c false t s ≡ ok s'
      → close_tournament rt tp sys closer c false t s'
        ≡ ok (record s' { log = emit (tournament_closed t.key 0 false) s'.log })
  unfolding close_tournament
  close_tournament-again s s' d h =
      let i = close_tournament-IsCall false s s' h in
      let swept =
        close_children-IsSwept rt sys t.key c.organizer c.remaining_accounts s.store i.store 0
          i.accounts_closed d i.swept in
      let again =
        close_children-again rt sys t.key c.organizer c.remaining_accounts s.store i.store 0
          swept.emptied in
      let same : i.store ≡ s'.store = ground (arith, i.rooted) in
      let again' : close_children rt sys t.key c.organizer c.remaining_accounts (s'.store, 0)
          ≡ ok (s'.store, 0) =
        subst (λ x. close_children rt sys t.key c.organizer c.remaining_accounts (x, 0) ≡ ok (x, 0))
          same again in
      let owner : (s'.store c.organizer).owner ≡ (s.store c.organizer).owner =
        ap (λ x. (x c.organizer).owner) (sym same) ∙ swept.same_owner in
      ground (arith, h, again', owner)
