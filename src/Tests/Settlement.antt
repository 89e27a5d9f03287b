-- ===== src/Tests/Settlement.antt =====
-- The theorems on settlement at concrete tournaments.
use bracket_chain_programs.Prelude.{
  ℕ, suc, ◌≡◌, refl, List, [], ◌∷◌, arith, take, some, none, ◌+◌, sum, length, ◌≤◌, pos, true, ◌⊎◌,
  ◌↔◌,
}
use bracket_chain_programs.Errors.{Result, ok, err, ◌>>=◌}
use bracket_chain_programs.State.Payout.{
  standard, custom, basis_points, count_funded, placement_count, validate_custom,
}
use bracket_chain_programs.State.Payout.Validity.{IsSplit, validate_custom_iff}
use bracket_chain_programs.State.Tournament.{Tournament, SettlementMode}
use bracket_chain_programs.State.MatchNode.{MatchStatus}
use bracket_chain_programs.Runtime.{AccountInfo, validate_token_account, le_bytes}
use bracket_chain_programs.Settlement.Split.{
  share_of, floor_amounts, add_lower, absorb_remainder, split_placements,
}
use bracket_chain_programs.Settlement.Exact.{floors, floor_share, split_placements-exact}
use bracket_chain_programs.Settlement.Advance.{advance_winner}
use bracket_chain_programs.Settlement.Siblings.{IsParent, advance_winner_either_order}
use bracket_chain_programs.Settlement.Prizes.{
  Distribution, check_placements, check_runner_up, pay_out, pay_one, pay_placements, pay_fee,
  close_distribution, distribute_prizes,
}
use bracket_chain_programs.Settlement.Payment.{IsApart}
use bracket_chain_programs.Settlement.Drained.{IsDrained, distribute_prizes-IsDrained}
use bracket_chain_programs.Settlement.Total.{ArePayable, distribute_prizes-total}
use bracket_chain_programs.Settlement.Finalize.{
  Settlement, FinalizeInput, trailing_zeros, max_round_of, is_final_of, finish_final, report_match,
  finalize_match,
}
use bracket_chain_programs.Settlement.Outcome.{IsReported, IsWon, IsAdvanced}
use bracket_chain_programs.Settlement.Finality.{IsLast, HasMovedOn, finalize_match-finality}
use bracket_chain_programs.Tests.Ledger.{tokens, transfer, move}
use bracket_chain_programs.Tests.Bracket.{
  alice, bob, carol, vault, config, tournament_of, match_of, empty_final, token_account, balances,
}

split_placements-exact_example :
    (bps : ℕ) × (rest : List ℕ) × (champion : ℕ) × (take
        (placement_count standard)
        (basis_points standard)
      ≡ bps ∷ rest)
    × (split_placements 965 (basis_points standard) (placement_count standard)
        ≡ ok (champion ∷ floors 965 rest))
    × (suc (length rest) ≡ placement_count standard)
    × (champion + sum (floors 965 rest) ≡ 965)
    × (floor_share 965 bps ≤ champion)
unfolding validate_custom
split_placements-exact_example = split_placements-exact standard 965 refl (omega arith)

-- The three placements of a final between Alice and Bob, with Carol third.
abbrev podium : List ℕ
podium = alice ∷ bob ∷ carol ∷ []

abbrev podium_accounts : List AccountInfo
podium_accounts =
    token_account 21 alice ∷ token_account 22 bob ∷ token_account 23 carol ∷ token_account 28 8 ∷ []

abbrev open_podium : Tournament
open_podium = tournament_of standard SettlementMode.organizer_only 2

podium_accounts-IsApart : IsApart vault podium_accounts
podium_accounts-IsApart = ground arith

abbrev result_or {ℓ} : {A : Type ℓ} → A → Result A → A
result_or a (ok b) = b
result_or a (err e) = a

abbrev no_distribution : Distribution (ℕ → ℕ)
no_distribution = record {
  gross_pool = 0;
  fee_amount = 0;
  net_pool = 0;
  placement_payouts = [];
  ledger = balances;
}

abbrev podium_distribution : Distribution (ℕ → ℕ)
podium_distribution = result_or no_distribution (
    distribute_prizes tokens open_podium config vault podium_accounts alice alice bob podium
      balances)

podium_distributed :
    distribute_prizes tokens open_podium config vault podium_accounts alice alice bob podium
      balances
    ≡ ok podium_distribution
unfolding distribute_prizes share_of split_placements floor_amounts add_lower absorb_remainder
    placement_count count_funded basis_points check_placements check_runner_up pay_placements
    pay_one pay_out pay_fee close_distribution validate_token_account le_bytes transfer move
podium_distributed = refl

distribute_prizes-IsDrained_example :
    IsDrained tokens open_podium vault podium_accounts balances podium_distribution
unfolding validate_custom
distribute_prizes-IsDrained_example =
    distribute_prizes-IsDrained tokens open_podium vault config podium_accounts alice alice bob
      podium balances podium_distribution refl podium_accounts-IsApart podium_distributed

podium_accounts-ArePayable :
    ArePayable tokens open_podium vault balances 1_000 podium_accounts
      (alice ∷ bob ∷ carol ∷ 8 ∷ [])
unfolding validate_token_account le_bytes
podium_accounts-ArePayable = (
  record { valid = refl; apart = omega arith; can_pay = omega arith; fits = omega arith },
  (
    record { valid = refl; apart = omega arith; can_pay = omega arith; fits = omega arith },
    (
      record { valid = refl; apart = omega arith; can_pay = omega arith; fits = omega arith },
      (record { valid = refl; apart = omega arith; can_pay = omega arith; fits = omega arith }, tt),
    ),
  ),
)

distribute_prizes-total_example :
    (d : Distribution (ℕ → ℕ)) × (distribute_prizes tokens open_podium config vault podium_accounts
        alice alice bob podium balances
      ≡ ok d)
unfolding validate_custom placement_count count_funded basis_points check_placements check_runner_up
distribute_prizes-total_example =
    distribute_prizes-total tokens open_podium vault config podium_accounts alice alice bob podium
      balances refl refl refl refl podium_accounts-ArePayable

-- The semifinals of four players.
empty_final-IsParent : IsParent empty_final 1_106 0 0
empty_final-IsParent = record {
  same_tournament = refl;
  next_round = refl;
  byte_round = omega arith;
  half_index = refl;
}

advance_winner_either_order_example :
    ((advance_winner (some empty_final) 1_106 0 0 alice >>= λ n.
    advance_winner (some n) 1_106 0 1 carol)
      ≡ ok (record empty_final { player_a = alice; player_b = carol; status = MatchStatus.active }))
    × ((advance_winner (some empty_final) 1_106 0 1 carol >>= λ n.
          advance_winner (some n) 1_106 0 0 alice)
        ≡ ok (record empty_final {
          player_a = alice;
          player_b = carol;
          status = MatchStatus.active;
        }))
advance_winner_either_order_example =
    advance_winner_either_order empty_final 1_106 0 0 1 alice carol empty_final-IsParent refl refl
      refl (omega arith) (omega arith)

validate_custom_iff_example :
    (validate_custom (custom (7_000 ∷ 3_000 ∷ 0 ∷ 0 ∷ 0 ∷ 0 ∷ 0 ∷ 0 ∷ [])) ≡ ok tt)
    ↔ IsSplit (7_000 ∷ 3_000 ∷ 0 ∷ 0 ∷ 0 ∷ 0 ∷ 0 ∷ 0 ∷ [])
validate_custom_iff_example = validate_custom_iff (7_000 ∷ 3_000 ∷ 0 ∷ 0 ∷ 0 ∷ 0 ∷ 0 ∷ 0 ∷ [])

-- The final of two, which Alice wins.
abbrev final_input : FinalizeInput
final_input = record {
  vault = vault;
  protocol_config = config;
  remaining_accounts = podium_accounts;
  winner = alice;
  placements = podium;
  placements_trusted = true;
  now = pos 500;
}

abbrev final_before : Settlement (ℕ → ℕ)
final_before = record {
  tournament = open_podium;
  match_account = match_of 0 0;
  next_match = none;
  ledger = balances;
  log = [];
}

abbrev final_after : Settlement (ℕ → ℕ)
final_after = result_or final_before (finalize_match tokens final_input final_before)

final_finalized : finalize_match tokens final_input final_before ≡ ok final_after
unfolding finalize_match report_match is_final_of max_round_of trailing_zeros finish_final
    distribute_prizes share_of split_placements floor_amounts add_lower absorb_remainder
    placement_count count_funded basis_points check_placements check_runner_up pay_placements
    pay_one pay_out pay_fee close_distribution validate_token_account le_bytes transfer move
final_finalized = refl

finalize_match-finality_example :
    IsReported tokens final_input final_before final_after
    × ((IsLast 1 0 0 × IsWon tokens final_input final_before final_after)
        ⊎ (¬ (IsLast 1 0 0)
            × IsAdvanced tokens final_input final_before final_after
            × HasMovedOn tokens final_input final_before final_after))
finalize_match-finality_example =
    finalize_match-finality tokens final_input final_before final_after 1 (omega arith) refl
      final_finalized
