-- ===== src/Settlement/Drained.antt =====
-- The accounting of `distribute_prizes` for the presets that `create_tournament` accepts.
use bracket_chain_programs.Prelude.{
  ℕ, zero, suc, ◌+◌, ◌-◌, ◌<◌, ◌^◌, ◌≡◌, refl, List, [], ◌∷◌, arith, get_elem?, sum, if◌then◌else◌,
  ◌==◌,
}
use bracket_chain_programs.Errors.{ok, ◌>>=◌}
use bracket_chain_programs.State.Payout.{basis_points, placement_count, validate_custom}
use bracket_chain_programs.State.Tournament.{Tournament}
use bracket_chain_programs.State.ProtocolConfig.{ProtocolConfig}
use bracket_chain_programs.Runtime.{AccountInfo, TokenProgram}
use bracket_chain_programs.Settlement.Split.{split_placements}
use bracket_chain_programs.Settlement.Prizes.{
  Distribution, pay_placements, close_distribution, distribute_prizes,
}
use bracket_chain_programs.Settlement.Exact.{
  floor_share, floors, share_of-eq, split_placements-exact,
}
use bracket_chain_programs.Settlement.Payment.{
  received, fee_received, total_paid, IsApart, Moved, paid_distribution-Moved,
}

-- A distribution that went through: the pool is the vault's balance, the fee its floored share, the
-- payouts are what is left, the vault is empty, and any other account has gained exactly what the
-- placements and the fee give it.
pub record IsDrained (tp : TokenProgram) (t : Tournament) (vault : ℕ) (atas : List AccountInfo)
    (l : tp.Ledger) (d : Distribution tp.Ledger) : Type 0 where
  pub gross : d.gross_pool ≡ tp.amount l vault
  pub fee : d.fee_amount ≡ floor_share d.gross_pool 350
  pub net : d.net_pool + d.fee_amount ≡ d.gross_pool
  pub payouts : total_paid d.placement_payouts ≡ d.net_pool
  pub empty : tp.amount d.ledger vault ≡ 0
  pub champion : ℕ
  pub amounts : List ℕ
  pub split :
      split_placements d.net_pool (basis_points t.payout_preset) (placement_count t.payout_preset)
      ≡ ok (champion ∷ amounts)
  pub credited :
      (k : ℕ)
      → tp.amount d.ledger k + (if k == vault then d.gross_pool else 0)
        ≡ tp.amount l k
          + received k (champion ∷ amounts) atas
          + fee_received k d.fee_amount (get_elem? atas (placement_count t.payout_preset))

module _ (tp : TokenProgram) (t : Tournament) (vault : ℕ) where
  distribute_prizes-paid :
      (config : ProtocolConfig) (atas : List AccountInfo) (winner a b : ℕ) (placements : List ℕ)
      (l : tp.Ledger) (d : Distribution tp.Ledger) (amounts : List ℕ)
      → let gross = tp.amount l vault in
        let fee = floor_share gross 350 in
        let count = placement_count t.payout_preset in
        gross < 2 ^ 64
        → split_placements (gross - fee) (basis_points t.payout_preset) count ≡ ok amounts
        → distribute_prizes tp t config vault atas winner a b placements l ≡ ok d
        → (pay_placements tp t vault 1 amounts atas placements l
            >>= close_distribution tp t config vault atas gross fee (gross - fee))
          ≡ ok d
  unfolding distribute_prizes
  distribute_prizes-paid config atas winner a b placements l d amounts hg hs h =
      ground (arith, share_of-eq (tp.amount l vault) 350 hg)

  -- The vault itself receives nothing.
  received_apart :
      (amounts : List ℕ) (atas : List AccountInfo)
      → IsApart vault atas
      → received vault amounts atas ≡ 0
  received_apart [] atas ne = refl
  received_apart (a ∷ amounts) [] ne = refl
  received_apart (a ∷ amounts) (ata ∷ atas) ne = ground (arith, received_apart amounts atas ne.1)

  fee_received_apart :
      (fee i : ℕ) (atas : List AccountInfo)
      → IsApart vault atas
      → fee_received vault fee (get_elem? atas i) ≡ 0
  fee_received_apart fee i [] ne = refl
  fee_received_apart fee zero (ata ∷ atas) ne = ground arith
  fee_received_apart fee (suc i) (ata ∷ atas) ne = fee_received_apart fee i atas ne.1

  module _ (atas : List AccountInfo) (l : tp.Ledger) (d : Distribution tp.Ledger) (amounts : List ℕ)
      (ne : IsApart vault atas) where
    -- The balances after a distribution of the given amounts.
    abbrev Accounted : ℕ → Type 0
    Accounted fee =
        (k : ℕ)
        → Moved tp t vault l d.ledger k (sum amounts + fee) (
            received k amounts atas
            + fee_received k fee (get_elem? atas (placement_count t.payout_preset)))

    drained :
        (fee : ℕ)
        → Accounted fee
        → sum amounts + fee ≡ tp.amount l vault
        → tp.amount d.ledger vault ≡ 0
    drained fee moved total = ground (
      arith,
      moved vault,
      received_apart amounts atas ne,
      fee_received_apart fee (placement_count t.payout_preset) atas ne,
    )

    credited :
        (fee k : ℕ)
        → Accounted fee
        → sum amounts + fee ≡ d.gross_pool
        → tp.amount d.ledger k + (if k == vault then d.gross_pool else 0)
          ≡ tp.amount l k
            + received k amounts atas
            + fee_received k fee (get_elem? atas (placement_count t.payout_preset))
    credited fee k moved total = ground (arith, moved k)

  assemble :
      (config : ProtocolConfig) (atas : List AccountInfo) (winner a b : ℕ) (placements : List ℕ)
      (l : tp.Ledger) (d : Distribution tp.Ledger) (champion : ℕ) (amounts : List ℕ)
      → IsApart vault atas
      → let gross = tp.amount l vault in
        let fee = floor_share gross 350 in
        let count = placement_count t.payout_preset in
        split_placements (gross - fee) (basis_points t.payout_preset) count
          ≡ ok (champion ∷ amounts)
        → champion + sum amounts ≡ gross - fee
        → distribute_prizes tp t config vault atas winner a b placements l ≡ ok d
        → IsDrained tp t vault atas l d
  assemble config atas winner a b placements l d champion amounts ne split whole h =
      let gross = tp.amount l vault in
      let fee = floor_share gross 350 in
      let paid =
        distribute_prizes-paid config atas winner a b placements l d (champion ∷ amounts)
          (tp.amount-lt l vault) split h in
      let moved = λ (k : ℕ).
        paid_distribution-Moved tp t vault config atas placements (champion ∷ amounts) gross fee
          (gross - fee) k l d ne paid in
      let (_, payouts, d_gross, d_fee, d_net) = moved vault in
      record {
        gross = d_gross;
        fee = rw d_gross d_fee;
        net = omega arith;
        payouts = omega arith;
        empty = drained atas l d (champion ∷ amounts) ne fee (λ k. (moved k).0) (omega arith);
        champion = champion;
        amounts = amounts;
        split = rw d_net split;
        credited = λ k.
            rw d_fee
              (credited atas l d (champion ∷ amounts) ne fee k (λ j. (moved j).0) (omega arith));
      }

  -- For every tournament whose preset `create_tournament` accepts, a distribution of prizes that
  -- goes through, into accounts none of which is the vault, takes a fee of floor(3.5%) of the
  -- vault's balance, pays the whole rest to the placements, leaves the vault empty, and credits
  -- every account with exactly its placements' amounts and the fee, where it holds the treasury.
  pub distribute_prizes-IsDrained :
      (config : ProtocolConfig) (atas : List AccountInfo) (winner a b : ℕ) (placements : List ℕ)
      (l : tp.Ledger) (d : Distribution tp.Ledger)
      → validate_custom t.payout_preset ≡ ok tt
      → IsApart vault atas
      → distribute_prizes tp t config vault atas winner a b placements l ≡ ok d
      → IsDrained tp t vault atas l d
  distribute_prizes-IsDrained config atas winner a b placements l d valid ne h =
      let gross = tp.amount l vault in
      let fee = floor_share gross 350 in
      let bound = tp.amount-lt l vault in
      let (bps, rest, champion, _, split, _, whole, _) =
        split_placements-exact t.payout_preset (gross - fee) valid (omega arith) in
      assemble config atas winner a b placements l d champion (floors (gross - fee) rest) ne split
        whole h
