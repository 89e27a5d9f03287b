-- ===== src/Runtime.antt =====
-- What the program calls and does not implement: the derivation of program addresses by the Solana
-- runtime, and the SPL token program. Both are parameters of the model. `AccountInfo` is an account
-- as the runtime hands it over, for the accounts that the program reads byte by byte.
use bracket_chain_programs.Prelude.{
  ℕ, ◌+◌, ◌/◌, ◌%◌, ◌^◌, ◌≤◌, ◌<◌, ◌≡◌, ◌≢◌, zero, suc, Option, none, some, List, [], ◌∷◌, ◌++◌,
  ◌==◌, if◌then◌else◌, le_number, slice, leb, length,
}
use bracket_chain_programs.Errors.{
  Result, ok, err, constraint_seeds, cpi_failed, invalid_token_mint, invalid_treasury, ◌>>◌,
  require, ok_or,
}

pub record AccountInfo : Type 0 where
  pub key : ℕ
  pub owner : ℕ
  pub lamports : ℕ
  pub bytes : List ℕ

-- `Pubkey::try_from(&data[from..from + 32])`
abbrev pub key_at : AccountInfo → ℕ → ℕ
key_at ai from = le_number (slice ai.bytes from (from + 32))

-- The bytes of a word of `n` bytes, the lowest first.
unfoldable pub le_bytes : ℕ → ℕ → List ℕ
le_bytes zero v = []
le_bytes (suc n) v = (v % 256) ∷ le_bytes n (v / 256)

-- `create_program_address` of the runtime, and this program's address.
pub record Runtime : Type 0 where
  pub program_id : ℕ
  pub create_program_address : List (List ℕ) → ℕ → Option ℕ

-- The constraint `seeds = […], bump = b` on the account at `key`.
abbrev pub check_seeds : Runtime → List (List ℕ) → ℕ → ℕ → Result (Unit {0})
check_seeds rt seeds bump key =
    elim (rt.create_program_address (seeds ++ (bump ∷ []) ∷ []) rt.program_id) [
      | none ↦ err constraint_seeds
      | some address ↦ if address == key then ok tt else err constraint_seeds
    ]

-- The token program: the state of all token accounts, the balance of each, and the transfer of an
-- amount from one account to another, signed for by an authority. A transfer that goes through
-- takes the amount from the first balance and adds it to the second. `CanPay l from to authority`
-- says that both are usable accounts of one mint and that the authority may spend from the first:
-- then an amount that the balance covers goes through, unless the receiver's balance overflows.
pub record TokenProgram : Type 1 where
  pub id : ℕ
  pub Ledger : Type 0
  pub amount : Ledger → ℕ → ℕ
  pub transfer : Ledger → ℕ → ℕ → ℕ → ℕ → Option Ledger
  pub CanPay : Ledger → ℕ → ℕ → ℕ → Type 0
  pub amount-lt : (l : Ledger) (k : ℕ) → amount l k < 2 ^ 64
  pub amount-transfer :
      (l l' : Ledger) (from to authority n k : ℕ)
      → from ≢ to
      → transfer l from to authority n ≡ some l'
      → amount l' k + (if k == from then n else 0) ≡ amount l k + (if k == to then n else 0)
  pub transfer_total :
      (l : Ledger) (from to authority n : ℕ)
      → CanPay l from to authority
      → n ≤ amount l from
      → amount l to + n < 2 ^ 64
      → (l' : Ledger) × (transfer l from to authority n ≡ some l')
  pub CanPay-transfer :
      (l l' : Ledger) (from to authority n from' to' authority' : ℕ)
      → transfer l from to authority n ≡ some l'
      → CanPay l from' to' authority'
      → CanPay l' from' to' authority'

-- `token::transfer(…)?`
abbrev pub token_transfer : (tp : TokenProgram) → tp.Ledger → ℕ → ℕ → ℕ → ℕ → Result tp.Ledger
token_transfer tp l from to authority n = ok_or (tp.transfer l from to authority n) cpi_failed

-- `validate_token_account`, of which settlement.rs, cancel_tournament.rs and
-- partial_refund_chunk.rs each have a copy. A token account is 165 bytes, the mint's key first and
-- its owner's next.
unfoldable pub validate_token_account : ℕ → AccountInfo → ℕ → ℕ → Result (Unit {0})
validate_token_account token_id ai expected_owner expected_mint = do
  require (ai.owner == token_id) invalid_token_mint
  require (leb 165 (length ai.bytes)) invalid_token_mint
  require (key_at ai 0 == expected_mint) invalid_token_mint
  require (key_at ai 32 == expected_owner) invalid_treasury
