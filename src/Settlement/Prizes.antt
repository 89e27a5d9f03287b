-- ===== src/Settlement/Prizes.antt =====
-- settlement.rs: `distribute_prizes`. The vault's authority is the tournament, for which the runtime
-- signs by the seeds of its address.
use bracket_chain_programs.Prelude.{
  ℕ, ◌+◌, List, [], ◌∷◌, ◌++◌, ltb, leb, ◌==◌, if◌then◌else◌, length, get_elem?, checked_sub,
  truncate,
}
use bracket_chain_programs.Errors.{
  Result, ok, err, code, panicked, arithmetic_overflow, invalid_payout_preset,
  remaining_accounts_mismatch, non_participant_winner, ◌>>=◌, ◌>>◌, require, ok_or,
}
use bracket_chain_programs.Constants.{protocol_fee_bps}
use bracket_chain_programs.State.Payout.{basis_points, placement_count}
use bracket_chain_programs.State.Tournament.{Tournament}
use bracket_chain_programs.State.ProtocolConfig.{ProtocolConfig}
use bracket_chain_programs.Events.{PlacementPayout}
use bracket_chain_programs.Runtime.{
  AccountInfo, TokenProgram, token_transfer, validate_token_account,
}
use bracket_chain_programs.Settlement.Split.{share_of, split_placements}

-- What `distribute_prizes` returns, and the ledger after its transfers.
pub record Distribution (L : Type 0) : Type 0 where
  pub gross_pool : ℕ
  pub fee_amount : ℕ
  pub net_pool : ℕ
  pub placement_payouts : List PlacementPayout
  pub ledger : L

unfoldable pub check_runner_up : ℕ → List ℕ → Result (Unit {0})
check_runner_up runner_up placements = do
  second ← ok_or (get_elem? placements 1) panicked
  require (second == runner_up) non_participant_winner

-- The checks on the list of placements.
unfoldable pub check_placements : ℕ → ℕ → ℕ → List ℕ → Result (Unit {0})
check_placements winner final_player_a final_player_b placements = do
  first ← ok_or (get_elem? placements 0) panicked
  require (first == winner) non_participant_winner
  if leb 2 (length placements)
      then check_runner_up (if winner == final_player_a then final_player_b else final_player_a)
          placements
      else ok tt

module _ (tp : TokenProgram) where
  -- A transfer out of the vault to a validated account.
  unfoldable pub pay_out : Tournament → ℕ → AccountInfo → ℕ → ℕ → tp.Ledger → Result tp.Ledger
  pay_out t vault ata wallet paid ledger = do
    validate_token_account tp.id ata wallet t.token_mint
    token_transfer tp ledger vault ata.key t.key paid

  -- One round of the payment loop, for place `place`: the payouts that it adds, and the ledger.
  unfoldable pub pay_one :
      Tournament
      → ℕ
      → ℕ
      → ℕ
      → AccountInfo
      → ℕ
      → tp.Ledger
      → Result (List PlacementPayout × tp.Ledger)
  pay_one t vault place paid ata wallet ledger = if paid == 0 then ok ([], ledger) else do
    ledger' ← pay_out t vault ata wallet paid ledger
    ok (record { place = truncate 8 place; recipient = wallet; amount = paid } ∷ [], ledger')

  -- The loop over `amounts[i]`, `remaining_accounts[i]` and `placements[i]`.
  unfoldable pub pay_placements :
      Tournament
      → ℕ
      → ℕ
      → List ℕ
      → List AccountInfo
      → List ℕ
      → tp.Ledger
      → Result (List PlacementPayout × tp.Ledger)
  pay_placements t vault place [] atas wallets ledger = ok ([], ledger)
  pay_placements t vault place (paid ∷ amounts) [] wallets ledger = err panicked
  pay_placements t vault place (paid ∷ amounts) (ata ∷ atas) [] ledger = err panicked
  pay_placements t vault place (paid ∷ amounts) (ata ∷ atas) (wallet ∷ wallets) ledger = do
    first ← pay_one t vault place paid ata wallet ledger
    rest ← pay_placements t vault (place + 1) amounts atas wallets first.1
    ok (first.0 ++ rest.0, rest.1)

  -- The transfer of the fee, from the account after the last placement.
  unfoldable pub pay_fee :
      Tournament → ProtocolConfig → ℕ → List AccountInfo → ℕ → ℕ → tp.Ledger → Result tp.Ledger
  pay_fee t config vault remaining_accounts count fee_amount ledger =
      if ltb 0 fee_amount
      then (ok_or (get_elem? remaining_accounts count) panicked >>= λ treasury_ata.
          pay_out t vault treasury_ata config.treasury fee_amount ledger)
      else ok ledger

  -- What follows the payment loop: the fee, and the result.
  unfoldable pub close_distribution :
      Tournament
      → ProtocolConfig
      → ℕ
      → List AccountInfo
      → ℕ
      → ℕ
      → ℕ
      → List PlacementPayout × tp.Ledger
      → Result (Distribution tp.Ledger)
  close_distribution t config vault remaining_accounts gross_pool fee_amount net_pool paid =
      pay_fee t config vault remaining_accounts (placement_count t.payout_preset) fee_amount paid.1
      >>= λ ledger'. ok (record {
        gross_pool = gross_pool;
        fee_amount = fee_amount;
        net_pool = net_pool;
        placement_payouts = paid.0;
        ledger = ledger';
      })

  unfoldable pub distribute_prizes :
      Tournament
      → ProtocolConfig
      → ℕ
      → List AccountInfo
      → ℕ
      → ℕ
      → ℕ
      → List ℕ
      → tp.Ledger
      → Result (Distribution tp.Ledger)
  distribute_prizes t config vault remaining_accounts winner player_a player_b placements ledger =
      do
        let count = placement_count t.payout_preset
        require (length placements == count) invalid_payout_preset
        require (length remaining_accounts == count + 1) remaining_accounts_mismatch
        check_placements winner player_a player_b placements
        let gross_pool = tp.amount ledger vault
        fee_amount ← share_of gross_pool protocol_fee_bps
        net_pool ← ok_or (checked_sub gross_pool fee_amount) (code arithmetic_overflow)
        amounts ← split_placements net_pool (basis_points t.payout_preset) count
        paid ← pay_placements t vault 1 amounts remaining_accounts placements ledger
        close_distribution t config vault remaining_accounts gross_pool fee_amount net_pool paid
