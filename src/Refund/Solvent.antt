-- ===== src/Refund/Solvent.antt =====
-- What the vault owes, and that refunds lower its balance and its debt by the same amount.
use bracket_chain_programs.Prelude.{
  Has, IsDistinct, ℕ, ◌+◌, ◌*◌, ◌≡◌, refl, sym, ◌∙◌, ◌≢◌, ◌⊎◌, inl, inr, true, false, not, Option,
  none, some, List, [], ◌∷◌, arith, Option-cases, All, if◌then◌else◌, subst,
}
use bracket_chain_programs.Errors.{ok, Result-cases, >>=-eq-ok}
use bracket_chain_programs.State.Tournament.{Tournament}
use bracket_chain_programs.State.Participant.{Participant}
use bracket_chain_programs.Runtime.{Runtime, TokenProgram}
use bracket_chain_programs.Store.{Store, participant_in, write, of_participant}
use bracket_chain_programs.Refund.Process.{
  TokenAccount, Refunding, return_deposit, refund_deposit, refund_one, refund_pairs,
  process_refunds,
}
use bracket_chain_programs.Refund.Once.{IsEntrant, IsPaid, refund_one-cases}

-- One for a participant who has not been refunded.
abbrev pub unrefunded_in : Option Participant → ℕ
unrefunded_in none = 0
unrefunded_in (some p) = if p.refund_paid then 0 else 1

-- How many of the accounts hold such a participant.
abbrev pub unrefunded : Store → List ℕ → ℕ
unrefunded store [] = 0
unrefunded store (k ∷ ks) = unrefunded_in (participant_in (store k).contents) + unrefunded store ks

abbrev pub deposit_owed : Tournament → ℕ
deposit_owed t = if not t.organizer_deposit_refunded then t.organizer_deposit else 0

-- What is still to be refunded, of the participants at `ks` and the organizer.
abbrev pub owed : {L : Type 0} → Refunding L → List ℕ → ℕ
owed s ks = s.tournament.entry_fee * unrefunded s.store ks + deposit_owed s.tournament

-- The pairs name participants of the list, and token accounts other than the vault.
abbrev pub AreCovered : ℕ → List ℕ → List ℕ → Type 0
AreCovered vault ks [] = Unit
AreCovered vault ks (k ∷ []) = Unit
AreCovered vault ks (k ∷ ata ∷ rest) = Has k ks × (vault ≢ ata) × AreCovered vault ks rest

module _ (store : Store) (k : ℕ) (p : Participant) where
  abbrev marked : Store
  marked =
      write store k
        (record (store k) { contents = of_participant (record p { refund_paid = true }) })

  unrefunded-apart :
      (ks : List ℕ) → All (λ j. k ≢ j) ks → unrefunded marked ks ≡ unrefunded store ks
  unrefunded-apart [] ne = refl
  unrefunded-apart (j ∷ ks) ne = ground (arith, unrefunded-apart ks ne.1)

  unrefunded-marked :
      (ks : List ℕ)
      → participant_in (store k).contents ≡ some p
      → p.refund_paid ≡ false
      → IsDistinct ks
      → Has k ks
      → unrefunded store ks ≡ unrefunded marked ks + 1
  unrefunded-marked [] stored unpaid d h = absurd h
  unrefunded-marked (j ∷ ks) stored unpaid d (inl e) =
      ground (arith, unrefunded-apart ks (subst (λ i. All (λ j. i ≢ j) ks) (sym e) d.0))
  unrefunded-marked (j ∷ ks) stored unpaid d (inr h) =
      ground (arith, unrefunded-marked ks stored unpaid d.1 h, has_apart ks j k d.0 h)
    where
      has_apart : (ks : List ℕ) (j k : ℕ) → All (λ i. j ≢ i) ks → Has k ks → j ≢ k
      has_apart [] j k ne h e = absurd h
      has_apart (i ∷ ks) j k ne (inl here) e = ne.0 (e ∙ here)
      has_apart (i ∷ ks) j k ne (inr h) e = has_apart ks j k ne.1 h e

module _ (rt : Runtime) (tp : TokenProgram) (vault : ℕ) (ks : List ℕ) where
  -- The vault's balance and its debt have moved by the same amount.
  abbrev pub IsBalanced : Refunding tp.Ledger → Refunding tp.Ledger → Type 0
  IsBalanced s s' = tp.amount s.ledger vault + owed s' ks ≡ tp.amount s'.ledger vault + owed s ks

  paid-IsBalanced :
      (k ata : ℕ) (p : Participant) (s s' : Refunding tp.Ledger)
      → IsDistinct ks
      → Has k ks
      → vault ≢ ata
      → participant_in (s.store k).contents ≡ some p
      → IsPaid rt tp vault s s' k ata p
      → IsBalanced s s'
  paid-IsBalanced k ata p s s' d h ne stored i =
      let fewer : unrefunded s.store ks ≡ unrefunded s'.store ks + 1 =
        rw i.store_after (unrefunded-marked s.store k p ks stored i.unpaid d h) in
      let moved =
        tp.amount-transfer s.ledger s'.ledger vault ata s.tournament.key s.tournament.entry_fee
          vault ne i.sent in
      let moved' : tp.amount s'.ledger vault + s.tournament.entry_fee ≡ tp.amount s.ledger vault =
        ground (arith, moved, ne) in
      let debt : s.tournament.entry_fee * unrefunded s.store ks
          ≡ s.tournament.entry_fee * unrefunded s'.store ks + s.tournament.entry_fee =
        rw fewer (omega arith) in
      rw i.same_tournament (omega (arith, moved', debt))

  refund_one-IsBalanced :
      (k ata : ℕ) (s s' : Refunding tp.Ledger)
      → IsDistinct ks
      → Has k ks
      → vault ≢ ata
      → refund_one rt tp vault k ata s ≡ ok s'
      → IsBalanced s s'
  refund_one-IsBalanced k ata s s' d h ne e = balanced (refund_one-cases rt tp vault k ata s s' e)
    where
      balanced :
          ((p : Participant) × IsEntrant rt tp vault s k p
            × (((p.refund_paid ≡ true) × (s' ≡ s)) ⊎ IsPaid rt tp vault s s' k ata p))
          → IsBalanced s s'
      balanced (p, entrant, inl (paid, same)) = subst (λ t. IsBalanced s t) (sym same) refl
      balanced (p, entrant, inr i) = paid-IsBalanced k ata p s s' d h ne entrant.stored i

  refund_pairs-IsBalanced :
      (accounts : List ℕ) (s s' : Refunding tp.Ledger)
      → IsDistinct ks
      → AreCovered vault ks accounts
      → refund_pairs rt tp vault accounts s ≡ ok s'
      → IsBalanced s s'
  unfolding refund_pairs
  refund_pairs-IsBalanced [] s s' d c e =
      let same : s ≡ s' = ground (arith, e) in subst (λ t. IsBalanced s t) same refl
  refund_pairs-IsBalanced (k ∷ []) s s' d c e = absurd (ground arith)
  refund_pairs-IsBalanced (k ∷ ata ∷ rest) s s' d c e =
      let (t, first, later) =
        >>=-eq-ok (refund_one rt tp vault k ata s) (refund_pairs rt tp vault rest) e in
      let here = refund_one-IsBalanced k ata s t d c.0 c.1 first in
      let there = refund_pairs-IsBalanced rest t s' d c.2 later in omega (arith, here, there)

  -- The organizer's account is not the vault.
  abbrev pub IsOutside : Option TokenAccount → Type 0
  IsOutside none = Unit
  IsOutside (some ata) = vault ≢ ata.key

  refund_deposit-IsBalanced :
      (o : Option TokenAccount) (s s' : Refunding tp.Ledger)
      → IsOutside o
      → refund_deposit rt tp vault o s ≡ ok s'
      → IsBalanced s s'
  unfolding refund_deposit return_deposit
  refund_deposit-IsBalanced none s s' ne e =
      let same : s ≡ s' = ground (arith, e) in subst (λ t. IsBalanced s t) same refl
  refund_deposit-IsBalanced (some ata) s s' ne e =
      elim (Option-cases
        (tp.transfer s.ledger vault ata.key s.tournament.key s.tournament.organizer_deposit)) [
          | inl failed ↦ ground arith
          | inr (l, sent) ↦ ground (
            arith,
            tp.amount-transfer s.ledger l vault ata.key s.tournament.key
                s.tournament.organizer_deposit vault ne sent,
          )
        ]

  -- Where the pairs name participants of a list without repetition, and neither they nor the
  -- organizer's account is the vault, a refund call that succeeds lowers the balance of the vault
  -- by exactly what it takes off its debt: an entry fee for each participant of the list whose
  -- refund was not paid, and the organizer's deposit while it is not returned.
  pub process_refunds-IsBalanced :
      (o : Option TokenAccount) (accounts : List ℕ) (s s' : Refunding tp.Ledger)
      → IsDistinct ks
      → AreCovered vault ks accounts
      → IsOutside o
      → process_refunds rt tp vault o accounts s ≡ ok s'
      → IsBalanced s s'
  unfolding process_refunds
  process_refunds-IsBalanced o accounts s s' d c ne e =
      elim (Result-cases (refund_deposit rt tp vault o s)) [
        | inl (t, deposited) ↦ omega (
          arith,
          refund_deposit-IsBalanced o s t ne deposited,
          refund_pairs-IsBalanced accounts t s' d c (ground arith),
        )
        | inr (x, failed) ↦ absurd (ground arith)
      ]
