-- ===== src/Settlement/Split.antt =====
-- settlement.rs: `split_placements`, its loops by recursion on the slots.
use bracket_chain_programs.Prelude.{
  ℕ, List, [], ◌∷◌, ltb, if◌then◌else◌, take, checked_add, checked_mul, checked_div, checked_sub,
  truncate,
}
use bracket_chain_programs.Errors.{
  Result, ok, err, code, panicked, arithmetic_overflow, ◌>>=◌, ok_or,
}
use bracket_chain_programs.Constants.{bps_denominator}

-- `amount * bps / BPS_DENOMINATOR` over `u128`, and back to `u64`.
unfoldable pub share_of : ℕ → ℕ → Result ℕ
share_of amount bps = do
  product ← ok_or (checked_mul 128 amount bps) (code arithmetic_overflow)
  quotient ← ok_or (checked_div product bps_denominator) (code arithmetic_overflow)
  ok (truncate 64 quotient)

-- The loop that pushes each slot's floored amount.
unfoldable pub floor_amounts : ℕ → List ℕ → Result (List ℕ)
floor_amounts net [] = ok []
floor_amounts net (bps ∷ rest) = do
  amount ← share_of net bps
  amounts ← floor_amounts net rest
  ok (amount ∷ amounts)

-- The loop that sums the amounts below the champion's.
unfoldable pub add_lower : List ℕ → ℕ → Result ℕ
add_lower [] lower_sum = ok lower_sum
add_lower (a ∷ rest) lower_sum = do
  s ← ok_or (checked_add 64 lower_sum a) (code arithmetic_overflow)
  add_lower rest s

-- `amounts[0] = net_pool - lower_sum`, after that loop.
unfoldable pub absorb_remainder : ℕ → List ℕ → Result (List ℕ)
absorb_remainder net [] = err panicked
absorb_remainder net (first ∷ lower) = do
  lower_sum ← add_lower lower 0
  champion ← ok_or (checked_sub net lower_sum) (code arithmetic_overflow)
  ok (champion ∷ lower)

unfoldable pub split_placements : ℕ → List ℕ → ℕ → Result (List ℕ)
split_placements net_pool bps_table count = do
  amounts ← floor_amounts net_pool (take count bps_table)
  if ltb 0 count then absorb_remainder net_pool amounts else ok amounts
