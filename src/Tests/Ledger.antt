-- ===== src/Tests/Ledger.antt =====
-- A token program and a runtime to run the instructions with. The ledger is a function from account
-- keys to balances, and an address is the sum of the bytes of its seeds.
use bracket_chain_programs.Prelude.{
  ℕ, ◌+◌, ◌-◌, ◌%◌, ◌^◌, ◌≤◌, ◌<◌, ◌≡◌, ◌≢◌, Bool, ◌&&◌, not, Option, none, some, List, [], ◌∷◌,
  arith, ltb, leb, ◌==◌, if◌then◌else◌, sum,
}
use bracket_chain_programs.Runtime.{Runtime, TokenProgram}

abbrev balance : (ℕ → ℕ) → ℕ → ℕ
balance l k = l k % 2 ^ 64

unfoldable pub move : (ℕ → ℕ) → ℕ → ℕ → ℕ → ℕ → ℕ
move l from to n k = balance l k - (if k == from then n else 0) + (if k == to then n else 0)

abbrev covers : (ℕ → ℕ) → ℕ → ℕ → ℕ → Bool
covers l from to n = not (from == to) && (leb n (balance l from) && ltb (balance l to + n) (2 ^ 64))

unfoldable pub transfer : (ℕ → ℕ) → ℕ → ℕ → ℕ → ℕ → Option (ℕ → ℕ)
transfer l from to authority n = if covers l from to n then some (move l from to n) else none

pub balance-lt : (l : ℕ → ℕ) (k : ℕ) → balance l k < 2 ^ 64
balance-lt l k = omega arith

pub balance-move :
    (l l' : ℕ → ℕ) (from to authority n k : ℕ)
    → from ≢ to
    → transfer l from to authority n ≡ some l'
    → balance l' k + (if k == from then n else 0) ≡ balance l k + (if k == to then n else 0)
unfolding transfer move
balance-move l l' from to authority n k ne h = ground arith

pub transfer_lem :
    (l : ℕ → ℕ) (from to authority n : ℕ)
    → from ≢ to
    → n ≤ balance l from
    → balance l to + n < 2 ^ 64
    → (l' : ℕ → ℕ) × (transfer l from to authority n ≡ some l')
unfolding transfer move
transfer_lem l from to authority n ne covered fits = (move l from to n, ground arith)

abbrev pub tokens : TokenProgram
tokens = record {
  id = 99;
  Ledger = ℕ → ℕ;
  amount = balance;
  transfer = transfer;
  CanPay = λ l from to authority. from ≢ to;
  amount-lt = balance-lt;
  amount-transfer = balance-move;
  transfer_total = transfer_lem;
  CanPay-transfer = λ l l' from to authority n from' to' authority' h p. p;
}

abbrev pub sum_seeds : List (List ℕ) → ℕ
sum_seeds [] = 0
sum_seeds (seed ∷ seeds) = sum seed + sum_seeds seeds

abbrev pub chain : Runtime
chain = record { program_id = 42; create_program_address = λ seeds program. some (sum_seeds seeds) }
