-- ===== src/Seeding.antt =====
-- programs/bracket-chain/src/seeding.rs: the assignment of participants to the first round, by a
-- Fisher-Yates shuffle that the revealed seed drives. A vector is a list, and an index out of its
-- bounds panics.
pub mod Permutation
pub mod Coverage
use Prim.Native.Nat.{bit_xor}
use bracket_chain_programs.Prelude.{
  ℕ, zero, suc, ◌+◌, ◌-◌, ◌*◌, ◌/◌, ◌%◌, ◌^◌, List, [], ◌∷◌, Option, none, some, ltb, if◌then◌else◌,
  get_elem?, le_number, slice, checked_sub,
}
use bracket_chain_programs.Errors.{Result, ok, panicked, ◌>>=◌, ok_or}

-- `s ^ (s >> n)`
abbrev pub xor_shift : ℕ → ℕ → ℕ
xor_shift s n = bit_xor s (s / 2 ^ n)

-- The finalizer of splitmix64.
unfoldable pub mix : ℕ → ℕ
mix s =
    let s1 = xor_shift s 30 * 13_787_848_793_156_543_929 % 2 ^ 64 in
    let s2 = xor_shift s1 27 * 10_723_151_780_598_845_931 % 2 ^ 64 in xor_shift s2 31

-- The loop over the words of 8 bytes, `count` of them from byte `k` on.
unfoldable pub absorb : ℕ → ℕ → List ℕ → ℕ → ℕ
unfolding mix
absorb zero k seed_hash s = s
absorb (suc count) k seed_hash s =
    absorb count (k + 8) seed_hash (mix (bit_xor s (le_number (slice seed_hash k (k + 8)))))

unfoldable pub seed_state : List ℕ → ℕ
unfolding absorb
seed_state seed_hash = absorb 4 0 seed_hash 11_400_714_819_323_198_485

-- The next value and the next state.
unfoldable pub next_u64 : ℕ → ℕ × ℕ
unfolding mix
next_u64 state = let state' = (state + 11_400_714_819_323_198_485) % 2 ^ 64 in (mix state', state')

-- The vector `0..n` from `start` on.
unfoldable pub range : ℕ → ℕ → List ℕ
range start zero = []
range start (suc n) = start ∷ range (start + 1) n

abbrev pub set_elem : List ℕ → ℕ → ℕ → List ℕ
set_elem [] i v = []
set_elem (x ∷ xs) zero v = v ∷ xs
set_elem (x ∷ xs) (suc i) v = x ∷ set_elem xs i v

unfoldable pub swap : List ℕ → ℕ → ℕ → Result (List ℕ)
swap perm i j = do
  a ← ok_or (get_elem? perm i) panicked
  b ← ok_or (get_elem? perm j) panicked
  ok (set_elem (set_elem perm i b) j a)

-- The loop while `i > 1`.
unfoldable pub shuffle : ℕ → ℕ → List ℕ → Result (List ℕ)
unfolding swap next_u64
shuffle zero state perm = ok perm
shuffle (suc zero) state perm = ok perm
shuffle (suc (suc k)) state perm = do
  let drawn = next_u64 state
  perm' ← swap perm (suc k) (drawn.0 % (suc k + 1))
  shuffle (suc k) drawn.1 perm'

unfoldable pub seed_permutation : List ℕ → ℕ → Result (List ℕ)
unfolding shuffle seed_state range
seed_permutation seed_hash n = shuffle n (seed_state seed_hash) (range 0 n)

-- The two entrants of match `m`: the second one is missing for a bye.
unfoldable pub round0_expected : List ℕ → ℕ → ℕ → ℕ → Result (ℕ × Option ℕ)
round0_expected perm m bracket_size n = do
  above ← ok_or (checked_sub bracket_size 1) panicked
  b_rank ← ok_or (checked_sub above m) panicked
  a ← ok_or (get_elem? perm m) panicked
  if ltb b_rank n then opponent perm a b_rank else ok (a, none)
  where
    opponent : List ℕ → ℕ → ℕ → Result (ℕ × Option ℕ)
    opponent perm a b_rank = do b ← ok_or (get_elem? perm b_rank) panicked; ok (a, some b)
