-- ===== src/Registration/Created.antt =====
-- What `create_tournament` has done when it succeeds.
use bracket_chain_programs.Prelude.{
  ℕ, ◌+◌, ◌≡◌, sym, ap, subst, ◌∙◌, ◌≢◌, inl, inr, Option, none, some, List, [], ◌∷◌, ◌++◌, arith,
  Bool-cases, Option-cases, ltb, ◌<ℤ◌,
}
use bracket_chain_programs.Errors.{ok, code, invalid_vault, ok_or, ◌>>=◌, Result-cases}
use bracket_chain_programs.Constants.{tournament_seed, vault_seed}
use bracket_chain_programs.State.Tournament.{Tournament}
use bracket_chain_programs.Runtime.{Runtime, TokenProgram, check_seeds, le_bytes, token_transfer}
use bracket_chain_programs.Accounts.{check_tournament, check_vault}
use bracket_chain_programs.Platform.{SystemProgram, Finder, TokenCreator}
use bracket_chain_programs.Store.{Store}
use bracket_chain_programs.Refund.Process.{TokenAccount}
use bracket_chain_programs.Registration.Init.{find_bump, init_account}
use bracket_chain_programs.Registration.Fresh.{
  IsBounded, check_args-IsBounded, IsBlank, IsNamed, tournament_from-IsBlank,
  tournament_from-IsNamed,
}
use bracket_chain_programs.Registration.Create.{
  CreateArgs, CreateContext, Registering, check_args, tournament_from, fund_deposit,
  create_tournament, tournament_space,
}

module _ (rt : Runtime) (finder : Finder rt) where
  -- The bump that was found passes the later constraint `bump = …`.
  pub find_bump-seeds :
      (seeds : List (List ℕ)) (key bump : ℕ)
      → find_bump rt finder seeds key ≡ ok bump
      → check_seeds rt seeds bump key ≡ ok tt
  unfolding find_bump
  find_bump-seeds seeds key bump h =
      elim (Option-cases (finder.find_program_address seeds rt.program_id)) [
        | inl no_address ↦ absurd (ground arith)
        | inr ((address, b), e) ↦
            let same : b ≡ bump = ground arith in
            let at_key : address ≡ key = ground arith in
            let derived : rt.create_program_address (seeds ++ (bump ∷ []) ∷ []) rt.program_id
                ≡ some key =
              subst
                (λ x. rt.create_program_address (seeds ++ (x ∷ []) ∷ []) rt.program_id ≡ some key)
                same (finder.found seeds rt.program_id address b e ∙ ap some at_key) in
            ground (arith, derived)
      ]

module _ (tp : TokenProgram) (c : CreateContext) where
  -- The organizer does not pay from the vault itself.
  abbrev pub PaysFromOutside : Option TokenAccount → Type 0
  PaysFromOutside none = Unit
  PaysFromOutside (some ata) = ata.key ≢ c.vault

  deposit-moved :
      (o : Option TokenAccount) (n : ℕ) (l l' : tp.Ledger)
      → PaysFromOutside o
      → (ok_or o (code invalid_vault) >>= λ ata. token_transfer tp l ata.key c.vault c.organizer n)
        ≡ ok l'
      → tp.amount l' c.vault ≡ tp.amount l c.vault + n
  deposit-moved none n l l' out h = absurd (ground arith)
  deposit-moved (some ata) n l l' out h =
      elim (Option-cases (tp.transfer l ata.key c.vault c.organizer n)) [
        | inl failed ↦ absurd (ground arith)
        | inr (l1, sent) ↦
            let moved = tp.amount-transfer l l1 ata.key c.vault c.organizer n c.vault out sent in
            ground (arith, moved, out)
      ]

  fund_deposit-amount :
      (n : ℕ) (l l' : tp.Ledger)
      → PaysFromOutside c.organizer_token_account
      → fund_deposit tp c n l ≡ ok l'
      → tp.amount l' c.vault ≡ tp.amount l c.vault + n
  unfolding fund_deposit
  fund_deposit-amount n l l' out h = elim (Bool-cases (ltb 0 n)) [
    | inl some_deposit ↦ deposit-moved c.organizer_token_account n l l' out (ground arith)
    | inr no_deposit ↦ ground arith
  ]

module _ (rt : Runtime) (finder : Finder rt) (tp : TokenProgram) (sys : SystemProgram)
    (creator : TokenCreator tp) (c : CreateContext) (a : CreateArgs) where
  -- A tournament that was just created.
  pub record IsCreated (t : Tournament) (s' : Registering tp.Ledger) : Type 0 where
    pub bounded : IsBounded a
    pub in_future : c.now <ℤ a.registration_deadline
    pub written : t ≡ tournament_from c a t.bump t.vault_bump
    pub blank : IsBlank c a t
    pub named : IsNamed c a t
    pub at_address : check_tournament rt t ≡ ok tt
    pub vault_at_address : check_vault rt t c.vault ≡ ok tt
    pub deposited : tp.amount s'.ledger c.vault ≡ a.organizer_deposit

  abbrev tournament_seeds : List (List ℕ)
  tournament_seeds = tournament_seed ∷ le_bytes 32 c.organizer ∷ a.name ∷ []

  abbrev vault_seeds : List (List ℕ)
  vault_seeds = vault_seed ∷ le_bytes 32 c.tournament ∷ []

  -- The parts of a call that succeeds.
  record IsCall (s s' : Registering tp.Ledger) (t : Tournament) : Type 0 where
    bump : ℕ
    vault_bump : ℕ
    found : find_bump rt finder tournament_seeds c.tournament ≡ ok bump
    found_vault : find_bump rt finder vault_seeds c.vault ≡ ok vault_bump
    store : Store
    store' : Store
    ledger : tp.Ledger
    opened :
        creator.create_token_account s.ledger store c.organizer c.vault c.token_mint c.tournament
        ≡ some (ledger, store')
    checked : check_args a c.now ≡ ok tt
    funded : fund_deposit tp c a.organizer_deposit ledger ≡ ok s'.ledger
    after : t ≡ tournament_from c a bump vault_bump

  create_tournament-IsCall :
      (s s' : Registering tp.Ledger) (t : Tournament)
      → create_tournament rt finder tp sys creator c a s ≡ ok (t, s')
      → IsCall s s' t
  unfolding create_tournament init_account
  create_tournament-IsCall s s' t h =
      elim (Result-cases (find_bump rt finder tournament_seeds c.tournament)) [
        | inr (x, failed) ↦ absurd (ground arith)
        | inl (bump, found) ↦
            elim (Option-cases (
              sys.create_account s.store c.organizer c.tournament
                (sys.minimum_balance tournament_space) tournament_space rt.program_id)) [
                  | inl failed ↦ absurd (ground arith)
                  | inr (store, made) ↦
                      elim (Result-cases (find_bump rt finder vault_seeds c.vault)) [
                        | inr (x, failed) ↦ absurd (ground arith)
                        | inl (vault_bump, found_vault) ↦
                            elim (Option-cases (
                              creator.create_token_account s.ledger store c.organizer c.vault
                                c.token_mint c.tournament)) [
                                  | inl failed ↦ absurd (ground arith)
                                  | inr ((ledger, store'), opened) ↦
                                      elim (Result-cases
                                        (fund_deposit tp c a.organizer_deposit ledger)) [
                                          | inr (x, failed) ↦ absurd (ground arith)
                                          | inl (l, funded) ↦ record {
                                            bump = bump;
                                            vault_bump = vault_bump;
                                            found = found;
                                            found_vault = found_vault;
                                            store = store;
                                            store' = store';
                                            ledger = ledger;
                                            opened = opened;
                                            checked = ground arith;
                                            funded = ground arith;
                                            after = ground arith;
                                          }
                                        ]
                                ]
                      ]
                ]
      ]

  -- `create_tournament` that succeeds, and is not paid from the vault itself, checks all its
  -- arguments and writes them to a tournament in registration, without participants, bracket, seed
  -- and champion. The tournament passes the account constraints of every later instruction, with its
  -- vault, and exactly the deposit is in the vault.
  pub create_tournament-IsCreated :
      (s s' : Registering tp.Ledger) (t : Tournament)
      → PaysFromOutside tp c c.organizer_token_account
      → create_tournament rt finder tp sys creator c a s ≡ ok (t, s')
      → IsCreated t s'
  unfolding create_tournament init_account check_tournament check_vault tournament_from
  create_tournament-IsCreated s s' t out h =
      let i = create_tournament-IsCall s s' t h in
      let (bounded, in_future) = check_args-IsBounded a c.now i.checked in
      let opened =
        creator.empty s.ledger i.ledger i.store i.store' c.organizer c.vault c.token_mint
          c.tournament i.opened in
      let bumps : t ≡ tournament_from c a t.bump t.vault_bump =
        subst (λ x. t ≡ tournament_from c a x t.vault_bump) (sym (ap (λ x. x.bump) i.after))
          (subst (λ x. t ≡ tournament_from c a i.bump x) (sym (ap (λ x. x.vault_bump) i.after))
            i.after) in
      let derived = find_bump-seeds rt finder vault_seeds c.vault i.vault_bump i.found_vault in
      record {
        bounded = bounded;
        in_future = in_future;
        written = bumps;
        blank = subst (IsBlank c a) (sym i.after) (tournament_from-IsBlank c a i.bump i.vault_bump);
        named = subst (IsNamed c a) (sym i.after) (tournament_from-IsNamed c a i.bump i.vault_bump);
        at_address =
            subst (λ x. check_tournament rt x ≡ ok tt) (sym i.after)
              (find_bump-seeds rt finder tournament_seeds c.tournament i.bump i.found);
        vault_at_address =
            subst (λ x. check_vault rt x c.vault ≡ ok tt) (sym i.after) (ground (arith, derived));
        deposited = ground (
          arith,
          fund_deposit-amount tp c a.organizer_deposit i.ledger s'.ledger out i.funded,
          opened,
        );
      }
