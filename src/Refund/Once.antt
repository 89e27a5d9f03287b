-- ===== src/Refund/Once.antt =====
-- Each participant is refunded once: what one round of the loop does, and that a second run over
-- the same accounts changes nothing.
use bracket_chain_programs.Prelude.{
  ℕ, ◌≡◌, refl, sym, subst, ◌⊎◌, inl, inr, true, false, some, List, [], ◌∷◌, arith, Bool-cases,
  Option-cases, All, ◌==◌,
}
use bracket_chain_programs.Errors.{ok, Result-cases, >>=-eq-ok}
use bracket_chain_programs.State.Participant.{Participant}
use bracket_chain_programs.Runtime.{Runtime, TokenProgram, validate_token_account}
use bracket_chain_programs.Store.{of_participant, participant_in, write, info_at}
use bracket_chain_programs.Refund.Process.{Refunding, pay_refund, refund_one, refund_pairs}

module _ (rt : Runtime) (tp : TokenProgram) (vault : ℕ) where
  -- The account at `k` holds a participant of the tournament.
  pub record IsEntrant (s : Refunding tp.Ledger) (k : ℕ) (p : Participant) : Type 0 where
    pub owned : (s.store k).owner ≡ rt.program_id
    pub stored : participant_in (s.store k).contents ≡ some p
    pub registered : p.tournament ≡ s.tournament.key

  -- A refund that is paid: the transfer, and the flag.
  pub record IsPaid (s s' : Refunding tp.Ledger) (k ata : ℕ) (p : Participant) : Type 0 where
    pub unpaid : p.refund_paid ≡ false
    pub sent :
        tp.transfer s.ledger vault ata s.tournament.key s.tournament.entry_fee ≡ some s'.ledger
    pub same_tournament : s'.tournament ≡ s.tournament
    pub store_after :
        s'.store
        ≡ write s.store k
            (record (s.store k) { contents = of_participant (record p { refund_paid = true }) })

  pay_refund-IsPaid :
      (k ata : ℕ) (p : Participant) (s s' : Refunding tp.Ledger)
      → p.refund_paid ≡ false
      → pay_refund rt tp vault k p ata s ≡ ok s'
      → IsPaid s s' k ata p
  unfolding pay_refund
  pay_refund-IsPaid k ata p s s' unpaid h =
      elim (Result-cases
        (validate_token_account tp.id (info_at s.store ata) p.wallet s.tournament.token_mint)) [
          | inl (_, valid) ↦
              elim (Option-cases
                (tp.transfer s.ledger vault ata s.tournament.key s.tournament.entry_fee)) [
                  | inl failed ↦ absurd (ground arith)
                  | inr (l, sent) ↦ record {
                    unpaid = unpaid;
                    sent = ground arith;
                    same_tournament = ground arith;
                    store_after = ground arith;
                  }
                ]
          | inr (_, invalid) ↦ absurd (ground arith)
        ]

  -- A round of the loop that succeeds is for a participant of the tournament, and pays the refund or
  -- finds it paid.
  pub refund_one-cases :
      (k ata : ℕ) (s s' : Refunding tp.Ledger)
      → refund_one rt tp vault k ata s ≡ ok s'
      → (p : Participant) × IsEntrant s k p
        × (((p.refund_paid ≡ true) × (s' ≡ s)) ⊎ IsPaid s s' k ata p)
  unfolding refund_one
  refund_one-cases k ata s s' h = elim (Option-cases (participant_in (s.store k).contents)) [
    | inl none_there ↦ absurd (ground arith)
    | inr (p, stored) ↦ (
      p,
      record { owned = ground arith; stored = stored; registered = ground arith },
      elim (Bool-cases p.refund_paid) [
        | inl paid ↦ inl (paid, ground arith)
        | inr unpaid ↦ inr (pay_refund-IsPaid k ata p s s' unpaid (ground arith))
      ],
    )
  ]

  -- The account at `k` holds a participant of the tournament whose refund is paid.
  pub record IsRefunded (s : Refunding tp.Ledger) (k : ℕ) : Type 0 where
    pub participant : Participant
    pub entrant : IsEntrant s k participant
    pub paid : participant.refund_paid ≡ true

  pub refund_one-IsRefunded :
      (k ata : ℕ) (s s' : Refunding tp.Ledger)
      → refund_one rt tp vault k ata s ≡ ok s'
      → IsRefunded s' k
  refund_one-IsRefunded k ata s s' h = after_round (refund_one-cases k ata s s' h)
    where
      after_round :
          ((p : Participant) × IsEntrant s k p
            × (((p.refund_paid ≡ true) × (s' ≡ s)) ⊎ IsPaid s s' k ata p))
          → IsRefunded s' k
      after_round (p, e, inl (paid, same)) =
          subst (λ t. IsRefunded t k) (sym same)
            (record { participant = p; entrant = e; paid = paid })
      after_round (p, e, inr i) = record {
        participant = record p { refund_paid = true };
        entrant = record {
          owned = ground (arith, i.store_after, e.owned);
          stored = ground (arith, i.store_after);
          registered = ground (arith, e.registered, i.same_tournament);
        };
        paid = refl;
      }

  -- A round for one participant does not undo the refund of another, nor its own.
  IsRefunded-kept :
      (j k ata : ℕ) (s s' : Refunding tp.Ledger)
      → refund_one rt tp vault k ata s ≡ ok s'
      → IsRefunded s j
      → IsRefunded s' j
  IsRefunded-kept j k ata s s' h r = kept (refund_one-cases k ata s s' h)
    where
      kept :
          ((p : Participant) × IsEntrant s k p
            × (((p.refund_paid ≡ true) × (s' ≡ s)) ⊎ IsPaid s s' k ata p))
          → IsRefunded s' j
      kept (p, e, inl (paid, same)) = subst (λ t. IsRefunded t j) (sym same) r
      kept (p, e, inr i) = elim (Bool-cases (j == k)) [
        | inl at_k ↦ absurd (ground (arith, e.stored, r.entrant.stored, r.paid, i.unpaid))
        | inr apart ↦ record {
          participant = r.participant;
          entrant = record {
            owned = ground (arith, i.store_after, r.entrant.owned);
            stored = ground (arith, i.store_after, r.entrant.stored);
            registered = ground (arith, r.entrant.registered, i.same_tournament);
          };
          paid = r.paid;
        }
      ]

  -- The participants' accounts in a list of pairs.
  abbrev pub participants_of : List ℕ → List ℕ
  participants_of [] = []
  participants_of (k ∷ []) = []
  participants_of (k ∷ ata ∷ rest) = k ∷ participants_of rest

  kept_through :
      (j : ℕ) (accounts : List ℕ) (s s' : Refunding tp.Ledger)
      → refund_pairs rt tp vault accounts s ≡ ok s'
      → IsRefunded s j
      → IsRefunded s' j
  unfolding refund_pairs
  kept_through j [] s s' h r = subst (λ t. IsRefunded t j) (ground (arith, h)) r
  kept_through j (k ∷ []) s s' h r = absurd (ground arith)
  kept_through j (k ∷ ata ∷ rest) s s' h r =
      let (s1, first, later) =
        >>=-eq-ok (refund_one rt tp vault k ata s) (refund_pairs rt tp vault rest) h in
      kept_through j rest s1 s' later (IsRefunded-kept j k ata s s1 first r)

  pub refund_pairs-IsRefunded :
      (accounts : List ℕ) (s s' : Refunding tp.Ledger)
      → refund_pairs rt tp vault accounts s ≡ ok s'
      → All (IsRefunded s') (participants_of accounts)
  unfolding refund_pairs
  refund_pairs-IsRefunded [] s s' h = tt
  refund_pairs-IsRefunded (k ∷ []) s s' h = tt
  refund_pairs-IsRefunded (k ∷ ata ∷ rest) s s' h =
      let (s1, first, later) =
        >>=-eq-ok (refund_one rt tp vault k ata s) (refund_pairs rt tp vault rest) h in
      (
        kept_through k rest s1 s' later (refund_one-IsRefunded k ata s s1 first),
        refund_pairs-IsRefunded rest s1 s' later,
      )

  pub refund_one-again :
      (k ata : ℕ) (s : Refunding tp.Ledger) → IsRefunded s k → refund_one rt tp vault k ata s ≡ ok s
  unfolding refund_one
  refund_one-again k ata s r =
      ground (arith, r.entrant.owned, r.entrant.stored, r.entrant.registered, r.paid)
