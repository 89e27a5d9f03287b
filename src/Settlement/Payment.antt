-- ===== src/Settlement/Payment.antt =====
-- What `distribute_prizes` does to the balances: the vault is drained, and every account receives
-- what the payouts and the fee say.
use bracket_chain_programs.Prelude.{
  ℕ, ◌+◌, ◌≡◌, subst, refl, ◌≢◌, inl, inr, Option, none, some, List, [], ◌∷◌, ◌++◌, arith, ◌==◌,
  ltb, All-get_elem?, if◌then◌else◌, Bool-cases, get_elem?, All, sum, truncate,
}
use bracket_chain_programs.Errors.{ok, ◌>>=◌, >>=-eq-ok, ok_or, panicked}
use bracket_chain_programs.State.Payout.{placement_count}
use bracket_chain_programs.State.Tournament.{Tournament}
use bracket_chain_programs.State.ProtocolConfig.{ProtocolConfig}
use bracket_chain_programs.Events.{PlacementPayout}
use bracket_chain_programs.Runtime.{
  AccountInfo, TokenProgram, token_transfer, validate_token_account,
}
use bracket_chain_programs.Settlement.Prizes.{
  Distribution, pay_out, pay_one, pay_placements, pay_fee, close_distribution,
}

-- What the account at `k` is owed when the i-th account is owed the i-th amount.
abbrev pub received : ℕ → List ℕ → List AccountInfo → ℕ
received k [] atas = 0
received k (a ∷ amounts) [] = 0
received k (a ∷ amounts) (ata ∷ atas) = (if k == ata.key then a else 0) + received k amounts atas

-- The fee goes to the account after the placements', if there is one.
abbrev pub fee_received : ℕ → ℕ → Option AccountInfo → ℕ
fee_received k fee none = 0
fee_received k fee (some ata) = if k == ata.key then fee else 0

fee_received_zero : (k fee : ℕ) (ata : Option AccountInfo) → fee ≡ 0 → fee_received k fee ata ≡ 0
fee_received_zero k fee none h = refl
fee_received_zero k fee (some ata) h = ground arith

abbrev pub total_paid : List PlacementPayout → ℕ
total_paid [] = 0
total_paid (p ∷ ps) = p.amount + total_paid ps

abbrev pub IsApart : ℕ → List AccountInfo → Type 0
IsApart vault = All (λ ai. vault ≢ ai.key)

total_paid-append :
    (ps qs : List PlacementPayout) → total_paid (ps ++ qs) ≡ total_paid ps + total_paid qs
total_paid-append [] qs = omega arith
total_paid-append (p ∷ ps) qs = omega (arith, total_paid-append ps qs)

module _ (tp : TokenProgram) (t : Tournament) (vault : ℕ) where
  -- The balance of the account at `k` moves by what the vault pays and what the account receives.
  abbrev pub Moved : tp.Ledger → tp.Ledger → ℕ → ℕ → ℕ → Type 0
  Moved l l' k paid got = tp.amount l' k + (if k == vault then paid else 0) ≡ tp.amount l k + got

  pay_out-Moved :
      (ata : AccountInfo) (wallet paid k : ℕ) (l l' : tp.Ledger)
      → vault ≢ ata.key
      → pay_out tp t vault ata wallet paid l ≡ ok l'
      → Moved l l' k paid (if k == ata.key then paid else 0)
  unfolding pay_out
  pay_out-Moved ata wallet paid k l l' ne h =
      let (_, _, moved) =
        >>=-eq-ok (validate_token_account tp.id ata wallet t.token_mint)
          (λ _. token_transfer tp l vault ata.key t.key paid) h in
      tp.amount-transfer l l' vault ata.key t.key paid k ne (ground (arith))

  pay_one-Moved :
      (place paid : ℕ) (ata : AccountInfo) (wallet k : ℕ) (l : tp.Ledger)
      (r : List PlacementPayout × tp.Ledger)
      → vault ≢ ata.key
      → pay_one tp t vault place paid ata wallet l ≡ ok r
      → Moved l r.1 k paid (if k == ata.key then paid else 0) × (total_paid r.0 ≡ paid)
  unfolding pay_one
  pay_one-Moved place paid ata wallet k l r ne h = elim (Bool-cases (paid == 0)) [
    | inl z ↦ ground arith
    | inr nz ↦
        let (l', paid_out, e) =
          >>=-eq-ok {U = List PlacementPayout × tp.Ledger} (pay_out tp t vault ata wallet paid l)
            (λ l'.
              ok (record { place = truncate 8 place; recipient = wallet; amount = paid } ∷ [], l'))
            {u = r} (ground arith) in
        ground (arith, pay_out-Moved ata wallet paid k l l' ne paid_out)
  ]

  pub pay_placements-Moved :
      (place : ℕ) (amounts : List ℕ) (atas : List AccountInfo) (wallets : List ℕ) (k : ℕ)
      (l : tp.Ledger) (r : List PlacementPayout × tp.Ledger)
      → IsApart vault atas
      → pay_placements tp t vault place amounts atas wallets l ≡ ok r
      → Moved l r.1 k (sum amounts) (received k amounts atas) × (total_paid r.0 ≡ sum amounts)
  unfolding pay_placements
  pay_placements-Moved place [] atas wallets k l r ne h = ground arith
  pay_placements-Moved place (paid ∷ amounts) [] wallets k l r ne h = cc
  pay_placements-Moved place (paid ∷ amounts) (ata ∷ atas) [] k l r ne h = cc
  pay_placements-Moved place (paid ∷ amounts) (ata ∷ atas) (wallet ∷ wallets) k l r ne h =
      let (first, e1, h1) = >>=-eq-ok _ _ {u = r} h in
      let (rest, e2, h2) = >>=-eq-ok _ _ {u = r} h1 in
      let here = pay_one-Moved place paid ata wallet k l first ne.0 e1 in
      let later = pay_placements-Moved (place + 1) amounts atas wallets k first.1 rest ne.1 e2 in
      let joined : (first.0 ++ rest.0, rest.1) ≡ r = ground (arith, h2) in
      subst
        (λ r.
          Moved l r.1 k (paid + sum amounts)
            ((if k == ata.key then paid else 0) + received k amounts atas)
          × (total_paid r.0 ≡ paid + sum amounts))
        joined
        (
          ground (arith, here.0, later.0),
          omega (arith, here.1, later.1, total_paid-append first.0 rest.0),
        )

  pay_fee_to-Moved :
      (wallet fee k : ℕ) (treasury_ata : Option AccountInfo) (l l' : tp.Ledger)
      → ((ata : AccountInfo) → treasury_ata ≡ some ata → vault ≢ ata.key)
      → (ok_or treasury_ata panicked >>= λ ata. pay_out tp t vault ata wallet fee l) ≡ ok l'
      → Moved l l' k fee (fee_received k fee treasury_ata)
  pay_fee_to-Moved wallet fee k none l l' ne h = cc
  pay_fee_to-Moved wallet fee k (some ata) l l' ne h =
      pay_out-Moved ata wallet fee k l l' (ne ata refl) h

  pub pay_fee-Moved :
      (config : ProtocolConfig) (atas : List AccountInfo) (count fee k : ℕ) (l l' : tp.Ledger)
      → IsApart vault atas
      → pay_fee tp t config vault atas count fee l ≡ ok l'
      → Moved l l' k fee (fee_received k fee (get_elem? atas count))
  unfolding pay_fee
  pay_fee-Moved config atas count fee k l l' ne h = elim (Bool-cases (ltb 0 fee)) [
    | inl e ↦
        pay_fee_to-Moved config.treasury fee k (get_elem? atas count) l l'
          (λ ata s. All-get_elem? _ atas count ne s) (ground arith)
    | inr z ↦ ground (arith, fee_received_zero k fee (get_elem? atas count))
  ]

  -- The payments of a distribution with the given amounts.
  module _ (config : ProtocolConfig) (atas : List AccountInfo) (placements amounts : List ℕ)
      (gross fee net k : ℕ) (l : tp.Ledger) (d : Distribution tp.Ledger)
      (ne : IsApart vault atas) where
    close_distribution-Moved :
        (paid : List PlacementPayout × tp.Ledger)
        → close_distribution tp t config vault atas gross fee net paid ≡ ok d
        → Moved paid.1 d.ledger k fee
            (fee_received k fee (get_elem? atas (placement_count t.payout_preset)))
          × (d.placement_payouts ≡ paid.0)
          × (d.gross_pool ≡ gross)
          × (d.fee_amount ≡ fee)
          × (d.net_pool ≡ net)
    unfolding close_distribution
    close_distribution-Moved paid h =
        let count = placement_count t.payout_preset in
        let (l', e, h') =
          >>=-eq-ok {U = Distribution tp.Ledger} (pay_fee tp t config vault atas count fee paid.1)
            (λ l'. ok (record {
              gross_pool = gross;
              fee_amount = fee;
              net_pool = net;
              placement_payouts = paid.0;
              ledger = l';
            }))
            h in
        ground (arith, pay_fee-Moved config atas count fee k paid.1 l' ne e)

    pub paid_distribution-Moved :
        (pay_placements tp t vault 1 amounts atas placements l
            >>= close_distribution tp t config vault atas gross fee net)
          ≡ ok d
        → Moved l d.ledger k (sum amounts + fee) (
            received k amounts atas
            + fee_received k fee (get_elem? atas (placement_count t.payout_preset)))
          × (total_paid d.placement_payouts ≡ sum amounts)
          × (d.gross_pool ≡ gross)
          × (d.fee_amount ≡ fee)
          × (d.net_pool ≡ net)
    paid_distribution-Moved h =
        let (paid, e, h') =
          >>=-eq-ok (pay_placements tp t vault 1 amounts atas placements l)
            (close_distribution tp t config vault atas gross fee net) h in
        ground (
          arith,
          pay_placements-Moved 1 amounts atas placements k l paid ne e,
          close_distribution-Moved paid h',
        )
