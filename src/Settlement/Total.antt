-- ===== src/Settlement/Total.antt =====
-- `distribute_prizes` succeeds: the shares never overflow, the vault covers every transfer, and no
-- index is out of bounds, whatever the accepted preset and the pool.
use bracket_chain_programs.Prelude.{
  ℕ, zero, suc, ◌+◌, ◌-◌, ◌≤◌, ◌<◌, ◌^◌, ◌≡◌, ◌≢◌, refl, sym, subst, List, [], ◌∷◌, ◌++◌, arith,
  some, length, length-map, get_elem?, sum, truncate,
}
use native.Mathlib.Nat.{zero-add, add-zero}
use bracket_chain_programs.Errors.{ok, ◌>>=◌}
use bracket_chain_programs.State.Payout.{placement_count, validate_custom}
use bracket_chain_programs.State.Tournament.{Tournament}
use bracket_chain_programs.State.ProtocolConfig.{ProtocolConfig}
use bracket_chain_programs.Events.{PlacementPayout}
use bracket_chain_programs.Runtime.{AccountInfo, TokenProgram, validate_token_account}
use bracket_chain_programs.Settlement.Prizes.{
  Distribution, check_placements, pay_out, pay_one, pay_placements, pay_fee, close_distribution,
  distribute_prizes,
}
use bracket_chain_programs.Settlement.Exact.{
  floor_share, floors, share_of-eq, split_placements-exact,
}

module _ (tp : TokenProgram) (t : Tournament) (vault : ℕ) where
  -- The account can be paid: it is the wallet's token account of the tournament's mint, it is not
  -- the vault, and `room` more fits its balance.
  pub record IsPayable (l : tp.Ledger) (room : ℕ) (ata : AccountInfo) (wallet : ℕ) : Type 0 where
    pub valid : validate_token_account tp.id ata wallet t.token_mint ≡ ok tt
    pub apart : vault ≢ ata.key
    pub can_pay : tp.CanPay l vault ata.key t.key
    pub fits : tp.amount l ata.key + room < 2 ^ 64

  -- The i-th account is the i-th wallet's, for the placements and then the treasury.
  abbrev pub ArePayable : tp.Ledger → ℕ → List AccountInfo → List ℕ → Type 0
  ArePayable l room [] [] = Unit
  ArePayable l room [] (w ∷ ws) = ⊥
  ArePayable l room (ata ∷ atas) [] = ⊥
  ArePayable l room (ata ∷ atas) (w ∷ ws) = IsPayable l room ata w × ArePayable l room atas ws

  -- A transfer out of the vault that goes through keeps what the later ones need.
  abbrev Keeps : tp.Ledger → tp.Ledger → ℕ → Type 0
  Keeps l l' paid =
      ((room : ℕ) (ata : AccountInfo) (wallet : ℕ)
        → IsPayable l (paid + room) ata wallet
        → IsPayable l' room ata wallet)
      × (tp.amount l' vault + paid ≡ tp.amount l vault)

  transfer-Keeps :
      (l l' : tp.Ledger) (to paid : ℕ)
      → vault ≢ to
      → tp.transfer l vault to t.key paid ≡ some l'
      → Keeps l l' paid
  transfer-Keeps l l' to paid ne h = (
    λ room ata wallet p. record {
      valid = p.valid;
      apart = p.apart;
      can_pay = tp.CanPay-transfer l l' vault to t.key paid vault ata.key t.key h p.can_pay;
      fits =
          ground (arith, tp.amount-transfer l l' vault to t.key paid ata.key ne h, p.fits, p.apart);
    },
    ground (arith, tp.amount-transfer l l' vault to t.key paid vault ne h),
  )

  pay_out-total :
      (l : tp.Ledger) (paid room : ℕ) (ata : AccountInfo) (wallet : ℕ)
      → IsPayable l (paid + room) ata wallet
      → paid ≤ tp.amount l vault
      → (l' : tp.Ledger) × (pay_out tp t vault ata wallet paid l ≡ ok l') × Keeps l l' paid
  unfolding pay_out
  pay_out-total l paid room ata wallet p covered =
      let (l', sent) =
        tp.transfer_total l vault ata.key t.key paid p.can_pay covered (omega (arith, p.fits)) in
      (l', rw (p.valid, sent), transfer-Keeps l l' ata.key paid p.apart sent)

  Keeps-all :
      (l l' : tp.Ledger) (paid room : ℕ) (atas : List AccountInfo) (wallets : List ℕ)
      → Keeps l l' paid
      → ArePayable l (paid + room) atas wallets
      → ArePayable l' room atas wallets
  Keeps-all l l' paid room [] [] k h = h
  Keeps-all l l' paid room [] (w ∷ ws) k h = h
  Keeps-all l l' paid room (ata ∷ atas) [] k h = h
  Keeps-all l l' paid room (ata ∷ atas) (w ∷ ws) k h =
      (k.0 room ata w h.0, Keeps-all l l' paid room atas ws k h.1)

  pay_one-total :
      (l : tp.Ledger) (place paid room : ℕ) (ata : AccountInfo) (wallet : ℕ)
      → IsPayable l (paid + room) ata wallet
      → paid ≤ tp.amount l vault
      → (r : List PlacementPayout × tp.Ledger) × (pay_one tp t vault place paid ata wallet l ≡ ok r)
        × Keeps l r.1 paid
  unfolding pay_one
  pay_one-total l place zero room ata wallet p covered =
      (([], l), refl, (λ room' ata' wallet' q. rw (zero-add room') at q, omega arith))
  pay_one-total l place (suc n) room ata wallet p covered =
      let (l', sent, keeps) = pay_out-total l (suc n) room ata wallet p covered in
      (
        (record { place = truncate 8 place; recipient = wallet; amount = suc n } ∷ [], l'),
        ground arith,
        keeps,
      )

  -- The payment loop and the fee: `treasury` stands for what follows the placements.
  pay_placements-total :
      (l : tp.Ledger) (place room total : ℕ) (amounts : List ℕ) (atas : List AccountInfo)
      (placements : List ℕ) (treasury : ℕ)
      → length amounts ≡ length placements
      → total ≡ sum amounts + room
      → ArePayable l total atas (placements ++ treasury ∷ [])
      → total ≤ tp.amount l vault
      → (r : List PlacementPayout × tp.Ledger) × (ata : AccountInfo) × (pay_placements tp t vault
            place amounts atas placements l
          ≡ ok r)
        × (get_elem? atas (length placements) ≡ some ata)
        × IsPayable r.1 room ata treasury
        × (room ≤ tp.amount r.1 vault)
  unfolding pay_placements
  pay_placements-total l place room total [] [] [] treasury e s p c = absurd p
  pay_placements-total l place room total [] (ata ∷ atas) [] treasury e s p c =
      (([], l), ata, refl, refl, rw (let z : total ≡ room = omega arith in z) at p.0, omega arith)
  pay_placements-total l place room total [] atas (w ∷ ws) treasury e s p c = absurd (omega arith)
  pay_placements-total l place room total (a ∷ amounts) atas [] treasury e s p c =
      absurd (omega arith)
  pay_placements-total l place room total (a ∷ amounts) [] (w ∷ ws) treasury e s p c = absurd p
  pay_placements-total l place room total (a ∷ amounts) (ata ∷ atas) (w ∷ ws) treasury e s p c =
      let regroup : total ≡ a + (sum amounts + room) = omega arith in
      let here = rw regroup at p.0 in
      let later = subst (λ n. ArePayable l n atas (ws ++ treasury ∷ [])) regroup p.1 in
      let (first, sent, keeps) =
        pay_one-total l place a (sum amounts + room) ata w here (omega arith) in
      let (rest, last, e', at_last, payable, covered) =
        pay_placements-total first.1 (place + 1) room (sum amounts + room) amounts atas ws treasury
          (omega arith) refl
          (Keeps-all l first.1 a (sum amounts + room) atas (ws ++ treasury ∷ []) keeps later)
          (omega arith) in
      ((first.0 ++ rest.0, rest.1), last, rw (sent, e'), at_last, payable, covered)

  pay_fee-total :
      (config : ProtocolConfig) (l : tp.Ledger) (count fee : ℕ) (atas : List AccountInfo)
      (ata : AccountInfo)
      → get_elem? atas count ≡ some ata
      → IsPayable l fee ata config.treasury
      → fee ≤ tp.amount l vault
      → (l' : tp.Ledger) × (pay_fee tp t config vault atas count fee l ≡ ok l')
  unfolding pay_fee
  pay_fee-total config l count zero atas ata e p c = (l, refl)
  pay_fee-total config l count (suc n) atas ata e p c =
      let (l', sent, _) =
        pay_out-total l (suc n) 0 ata config.treasury (rw (← add-zero (suc n)) at p) c in
      (l', ground (arith, sent))

  -- The transfers of a distribution, once its amounts are known.
  payments-total :
      (config : ProtocolConfig) (l : tp.Ledger) (atas : List AccountInfo)
      (placements amounts : List ℕ) (fee : ℕ)
      → length amounts ≡ length placements
      → length placements ≡ placement_count t.payout_preset
      → sum amounts + fee ≡ tp.amount l vault
      → ArePayable l (tp.amount l vault) atas (placements ++ config.treasury ∷ [])
      → (d : Distribution tp.Ledger) × ((pay_placements tp t vault 1 amounts atas placements l
            >>= close_distribution tp t config vault atas
                (tp.amount l vault)
                fee
                (tp.amount l vault - fee))
          ≡ ok d)
  unfolding close_distribution
  payments-total config l atas placements amounts fee ea ep whole payable =
      let gross = tp.amount l vault in
      let (paid, ata, sent, at_last, p, c) =
        pay_placements-total l 1 fee gross amounts atas placements config.treasury ea (sym whole)
          payable (omega arith) in
      let (l', fee_sent) =
        pay_fee-total config paid.1 (placement_count t.payout_preset) fee atas ata
          (rw (← ep) at_last) p c in
      (
        record {
          gross_pool = gross;
          fee_amount = fee;
          net_pool = gross - fee;
          placement_payouts = paid.0;
          ledger = l';
        },
        rw (sent, fee_sent),
      )

  -- For every tournament whose preset `create_tournament` accepts and every balance of the vault,
  -- a distribution succeeds, if there are as many placements as the preset has, the first two are
  -- the winner and the runner-up, and each account handed over is the token account of its
  -- placement (the last one the treasury's), can be paid from the vault, is not the vault and has
  -- room for the whole pool.
  pub distribute_prizes-total :
      (config : ProtocolConfig) (atas : List AccountInfo) (winner a b : ℕ) (placements : List ℕ)
      (l : tp.Ledger)
      → validate_custom t.payout_preset ≡ ok tt
      → length placements ≡ placement_count t.payout_preset
      → length atas ≡ placement_count t.payout_preset + 1
      → check_placements winner a b placements ≡ ok tt
      → ArePayable l (tp.amount l vault) atas (placements ++ config.treasury ∷ [])
      → (d : Distribution tp.Ledger) × (distribute_prizes tp t config vault atas winner a b
            placements l
          ≡ ok d)
  unfolding distribute_prizes
  distribute_prizes-total config atas winner a b placements l valid np na checked payable =
      let gross = tp.amount l vault in
      let fee = floor_share gross 350 in
      let bound = tp.amount-lt l vault in
      let (bps, rest, champion, _, split, counted, whole, _) =
        split_placements-exact t.payout_preset (gross - fee) valid (omega arith) in
      let (d, sent) =
        payments-total config l atas placements (champion ∷ floors (gross - fee) rest) fee
          (omega (arith, length-map rest (floor_share (gross - fee)))) np (omega arith) payable in
      (d, ground (arith, share_of-eq gross 350 bound))
