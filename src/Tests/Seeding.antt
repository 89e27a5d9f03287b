-- ===== src/Tests/Seeding.antt =====
-- The theorems on seeding, and the vector that the source's own test pins.
use bracket_chain_programs.Prelude.{ℕ, ◌≡◌, refl, Option, List, [], ◌∷◌, arith, ltb, if◌then◌else◌}
use bracket_chain_programs.Errors.{ok}
use bracket_chain_programs.Seeding.{
  range, mix, absorb, seed_state, next_u64, swap, shuffle, seed_permutation,
}
use bracket_chain_programs.Seeding.Permutation.{IsPermutation, seed_permutation-total}
use bracket_chain_programs.Seeding.Coverage.{first_round, placed, first_round-covers}

-- The bytes 0 to 31.
abbrev seed_hash : List ℕ
seed_hash =
    0 ∷ 1 ∷ 2 ∷ 3 ∷ 4 ∷ 5 ∷ 6 ∷ 7 ∷ 8 ∷ 9 ∷ 10 ∷ 11 ∷ 12 ∷ 13 ∷ 14 ∷ 15 ∷ 16 ∷ 17 ∷ 18 ∷ 19 ∷ 20
    ∷ 21 ∷ 22 ∷ 23 ∷ 24 ∷ 25 ∷ 26 ∷ 27 ∷ 28 ∷ 29 ∷ 30 ∷ 31 ∷ []

golden_vector : seed_permutation seed_hash 8 ≡ ok (4 ∷ 0 ∷ 3 ∷ 1 ∷ 5 ∷ 6 ∷ 7 ∷ 2 ∷ [])
unfolding seed_permutation range shuffle swap next_u64 absorb seed_state mix
golden_vector = refl

seed_permutation-total_example :
    (perm : List ℕ) × (seed_permutation seed_hash 8 ≡ ok perm) × IsPermutation perm 8
seed_permutation-total_example = seed_permutation-total seed_hash 8

first_round-covers_example :
    (perm : List ℕ) × (round : List (ℕ × Option ℕ)) × (seed_permutation seed_hash 5 ≡ ok perm)
    × (first_round perm 8 5 4 ≡ ok round)
    × ((x : ℕ) → placed x round ≡ (if ltb x 5 then 1 else 0))
first_round-covers_example = first_round-covers seed_hash 5 4 (omega arith) (omega arith)
