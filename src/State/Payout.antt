-- ===== src/State/Payout.antt =====
-- programs/bracket-chain/src/state/tournament.rs: `PayoutPreset` and its methods.
pub mod Validity
use bracket_chain_programs.Prelude.{
  ℕ, ◌+◌, Bool, true, false, not, List, [], ◌∷◌, ltb, ◌==◌, if◌then◌else◌, checked_add, get_elem?,
}
use bracket_chain_programs.Errors.{
  Result, ok, panicked, invalid_custom_payout, ◌>>=◌, ◌>>◌, require, ok_or,
}
use bracket_chain_programs.Constants.{payout_wta, payout_standard, payout_deep, bps_denominator}

pub data PayoutPreset : Type 0 where
  winner_takes_all standard deep : PayoutPreset
  custom : List ℕ → PayoutPreset

unfoldable pub basis_points : PayoutPreset → List ℕ
basis_points winner_takes_all = payout_wta
basis_points standard = payout_standard
basis_points deep = payout_deep
basis_points (custom slots) = slots

-- `.iter().filter(|bps| **bps > 0).count()`
unfoldable pub count_funded : List ℕ → ℕ
count_funded [] = 0
count_funded (bps ∷ rest) = (if ltb 0 bps then 1 else 0) + count_funded rest

unfoldable pub placement_count : PayoutPreset → ℕ
unfolding count_funded basis_points
placement_count p = count_funded (basis_points p)

unfoldable pub min_participants : PayoutPreset → ℕ
unfolding placement_count
min_participants winner_takes_all = 1
min_participants standard = 3
min_participants deep = 7
min_participants (custom slots) = placement_count (custom slots)

-- One round of the loop over the slots, on the variables `ended` and `sum`.
unfoldable pub validate_slot : ℕ → Bool × ℕ → Result (Bool × ℕ)
validate_slot bps (ended, total) = if bps == 0 then ok (true, total) else do
  require (not ended) invalid_custom_payout
  total' ← ok_or (checked_add 32 total bps) panicked
  ok (ended, total')

unfoldable pub validate_slots : List ℕ → Bool × ℕ → Result (Bool × ℕ)
unfolding validate_slot
validate_slots [] s = ok s
validate_slots (bps ∷ rest) s = validate_slot bps s >>= validate_slots rest

unfoldable pub validate_custom : PayoutPreset → Result (Unit {0})
unfolding validate_slots
validate_custom (custom slots) = do
  first ← ok_or (get_elem? slots 0) panicked
  require (ltb 0 first) invalid_custom_payout
  s ← validate_slots slots (false, 0)
  require (s.1 == bps_denominator) invalid_custom_payout
validate_custom winner_takes_all = ok tt
validate_custom standard = ok tt
validate_custom deep = ok tt
