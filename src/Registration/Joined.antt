-- ===== src/Registration/Joined.antt =====
-- What `join_tournament` has done when it succeeds.
use bracket_chain_programs.Prelude.{
  ℕ, ◌+◌, ◌<◌, ◌≡◌, refl, false, ◌≢◌, ap, inl, inr, some, List, [], ◌∷◌, arith, Option-cases, ◌<ℤ◌,
}
use bracket_chain_programs.Errors.{ok, Result-cases}
use bracket_chain_programs.Constants.{participant_seed, vault_seed}
use bracket_chain_programs.State.Tournament.{Tournament, TournamentStatus}
use bracket_chain_programs.State.Participant.{Participant}
use bracket_chain_programs.Runtime.{Runtime, TokenProgram, check_seeds, le_bytes}
use bracket_chain_programs.Accounts.{check_participant}
use bracket_chain_programs.Store.{closed, of_participant, write}
use bracket_chain_programs.Platform.{SystemProgram, Finder}
use bracket_chain_programs.Registration.Init.{find_bump, init_account}
use bracket_chain_programs.Registration.Create.{Registering}
use bracket_chain_programs.Registration.Join.{
  JoinContext, participant_space, identity_of, check_open, participant_from, register,
  join_tournament,
}
use bracket_chain_programs.Registration.Gate.{IsGated, identity_of-IsGated}
use bracket_chain_programs.Registration.Created.{find_bump-seeds}

module _ (rt : Runtime) (finder : Finder rt) (tp : TokenProgram) (sys : SystemProgram)
    (c : JoinContext) (t : Tournament) where
  -- The participant is the player, next in the order of registration, with its identity, no refund
  -- and no result.
  pub record IsEntry (identity : List ℕ × ℕ) (p : Participant) : Type 0 where
    pub keys : (p.key ≡ c.participant) × (p.tournament ≡ t.key) × (p.wallet ≡ c.player)
    pub index : p.seed_index ≡ t.participant_count
    pub unpaid : p.refund_paid ≡ false
    pub attested : (p.identity_hash ≡ identity.0) × (p.identity_attestation ≡ identity.1)
    pub results : (p.wins ≡ 0) × (p.losses ≡ 0)

  participant_from-IsEntry :
      (identity : List ℕ × ℕ) (bump : ℕ) → IsEntry identity (participant_from c t identity bump)
  unfolding participant_from
  participant_from-IsEntry identity bump = record {
    keys = (refl, refl, refl);
    index = refl;
    unpaid = refl;
    attested = (refl, refl);
    results = (refl, refl);
  }

  -- A registration that went through.
  pub record IsJoined (s : Registering tp.Ledger) (t' : Tournament) (s' : Registering tp.Ledger)
      : Type 0 where
    pub was_open : t.status ≡ TournamentStatus.registration
    pub in_time : c.now <ℤ t.registration_deadline
    pub had_room : t.participant_count < t.max_participants
    pub identity : List ℕ × ℕ
    pub gated : IsGated c t.game identity
    pub bump : ℕ
    pub at_address : check_participant rt t c.player (participant_from c t identity bump) ≡ ok tt
    pub unused : (s.store c.participant).contents ≡ closed
    pub owned : (s'.store c.participant).owner ≡ rt.program_id
    pub stored :
        (s'.store c.participant).contents ≡ of_participant (participant_from c t identity bump)
    pub entry : IsEntry identity (participant_from c t identity bump)
    pub others :
        (k : ℕ)
        → k ≢ c.participant
        → ((s'.store k).owner ≡ (s.store k).owner) × ((s'.store k).contents ≡ (s.store k).contents)
    pub counted : t' ≡ record t { participant_count = t.participant_count + 1 }
    pub vault_at_address :
        check_seeds rt (vault_seed ∷ le_bytes 32 t.key ∷ []) t.vault_bump c.vault ≡ ok tt
    pub paid : tp.amount s'.ledger c.vault ≡ tp.amount s.ledger c.vault + t.entry_fee

  abbrev participant_seeds : List (List ℕ)
  participant_seeds = participant_seed ∷ le_bytes 32 t.key ∷ le_bytes 32 c.player ∷ []

  -- The handler on a store in which the account was created.
  record IsRegistered (bump : ℕ) (s : Registering tp.Ledger) (t' : Tournament)
      (s' : Registering tp.Ledger) : Type 0 where
    was_open : t.status ≡ TournamentStatus.registration
    in_time : c.now <ℤ t.registration_deadline
    had_room : t.participant_count < t.max_participants
    identity : List ℕ × ℕ
    identified : identity_of c t.game ≡ ok identity
    sent :
        tp.transfer s.ledger c.player_token_account.key c.vault c.player t.entry_fee
        ≡ some s'.ledger
    counted : t' ≡ record t { participant_count = t.participant_count + 1 }
    store_after :
        s'.store
        ≡ write s.store c.participant (record (s.store c.participant) {
          contents = of_participant (participant_from c t identity bump);
        })

  register-IsRegistered :
      (bump : ℕ) (s s' : Registering tp.Ledger) (t' : Tournament)
      → register tp c bump t s ≡ ok (t', s')
      → IsRegistered bump s t' s'
  unfolding register check_open
  register-IsRegistered bump s s' t' h = elim (Result-cases (identity_of c t.game)) [
    | inr (x, failed) ↦ absurd (ground arith)
    | inl (identity, identified) ↦
        elim (Option-cases
          (tp.transfer s.ledger c.player_token_account.key c.vault c.player t.entry_fee)) [
            | inl failed ↦ absurd (ground arith)
            | inr (l, sent) ↦ record {
              was_open = ground arith;
              in_time = ground arith;
              had_room = ground arith;
              identity = identity;
              identified = identified;
              sent = ground arith;
              counted = ground arith;
              store_after = ground arith;
            }
          ]
  ]

  -- A call of `join_tournament` that succeeds, and does not pay from the vault itself, comes in
  -- registration, before the deadline, with room left and with the identity that the game asks for:
  -- none for the manual game, and for any other that of an accepted attestation for the player,
  -- issued under the protocol's credential and the game's schema.
  -- It creates the participant's account, which was not in use, at the address of the tournament and
  -- the player, with the number of participants so far as its index; it counts the participant,
  -- changes the owner and the contents of no other account, and raises the vault's balance by exactly
  -- the entry fee.
  pub join_tournament-IsJoined :
      (s s' : Registering tp.Ledger) (t' : Tournament)
      → c.player_token_account.key ≢ c.vault
      → join_tournament rt finder tp sys c t s ≡ ok (t', s')
      → IsJoined s t' s'
  unfolding join_tournament init_account check_participant participant_from
  join_tournament-IsJoined s s' t' outside h =
      elim (Result-cases (find_bump rt finder participant_seeds c.participant)) [
        | inr (x, failed) ↦ absurd (ground arith)
        | inl (bump, found) ↦
            elim (Option-cases (
              sys.create_account s.store c.player c.participant
                (sys.minimum_balance participant_space) participant_space rt.program_id)) [
                  | inl failed ↦ absurd (ground arith)
                  | inr (store, made) ↦
                      let r =
                        register-IsRegistered bump (record s { store = store }) s' t'
                          (ground arith) in
                      let kept =
                        sys.kept s.store store c.player c.participant
                          (sys.minimum_balance participant_space) participant_space rt.program_id in
                      record {
                        was_open = r.was_open;
                        in_time = r.in_time;
                        had_room = r.had_room;
                        identity = r.identity;
                        gated = identity_of-IsGated c t.game r.identity r.identified;
                        bump = bump;
                        at_address =
                            find_bump-seeds rt finder participant_seeds c.participant bump found;
                        unused =
                            sys.unused s.store store c.player c.participant
                              (sys.minimum_balance participant_space) participant_space
                              rt.program_id made;
                        owned = ground (
                          arith,
                          r.store_after,
                          sys.owned s.store store c.player c.participant
                              (sys.minimum_balance participant_space) participant_space
                              rt.program_id made,
                        );
                        stored = ground (arith, r.store_after);
                        entry = participant_from-IsEntry r.identity bump;
                        others = λ k ne. ground (arith, r.store_after, kept k made ne, ne);
                        counted = r.counted;
                        vault_at_address = ground arith;
                        paid = ground (
                          arith,
                          tp.amount-transfer s.ledger s'.ledger c.player_token_account.key c.vault
                              c.player t.entry_fee c.vault outside r.sent,
                          outside,
                        );
                      }
                ]
      ]

  -- A registration leaves the status as it is, wherever the fee is paid from.
  pub join_tournament-status :
      (s s' : Registering tp.Ledger) (t' : Tournament)
      → join_tournament rt finder tp sys c t s ≡ ok (t', s')
      → t'.status ≡ t.status
  unfolding join_tournament init_account
  join_tournament-status s s' t' h =
      elim (Result-cases (find_bump rt finder participant_seeds c.participant)) [
        | inr (x, failed) ↦ absurd (ground arith)
        | inl (bump, found) ↦
            elim (Option-cases (
              sys.create_account s.store c.player c.participant
                (sys.minimum_balance participant_space) participant_space rt.program_id)) [
                  | inl failed ↦ absurd (ground arith)
                  | inr (store, made) ↦
                      ap (λ u. u.status)
                        (register-IsRegistered bump (record s { store = store }) s' t'
                          (ground arith)).counted
                ]
      ]
