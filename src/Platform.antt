-- ===== src/Platform.antt =====
-- What instructions that create or close accounts call beside the token program: the system program,
-- the rent, and the hash function. They are parameters of the model.
use bracket_chain_programs.Prelude.{ℕ, ◌≡◌, ◌≢◌, Option, some, List, [], ◌∷◌, ◌++◌}
use bracket_chain_programs.Runtime.{Runtime, TokenProgram}
use bracket_chain_programs.Store.{Store, closed}

-- The system program creates an account only at an address that is not in use. The account then
-- belongs to the owner that was named, and no other account changes its owner or its contents.
pub record SystemProgram : Type 0 where
  pub id : ℕ
  pub create_account : Store → ℕ → ℕ → ℕ → ℕ → ℕ → Option Store
  pub minimum_balance : ℕ → ℕ
  pub unused :
      (store store' : Store) (from to lamports space owner : ℕ)
      → create_account store from to lamports space owner ≡ some store'
      → (store to).contents ≡ closed
  pub owned :
      (store store' : Store) (from to lamports space owner : ℕ)
      → create_account store from to lamports space owner ≡ some store'
      → (store' to).owner ≡ owner
  pub kept :
      (store store' : Store) (from to lamports space owner k : ℕ)
      → create_account store from to lamports space owner ≡ some store'
      → k ≢ to
      → ((store' k).owner ≡ (store k).owner) × ((store' k).contents ≡ (store k).contents)

-- The keccak hash of the chunks that a hasher has been fed.
abbrev pub Keccak : Type 0
Keccak = List (List ℕ) → List ℕ

-- The search for an address and its bump, `find_program_address` of the runtime: the address is the
-- one that the seeds and the bump give.
pub record Finder (rt : Runtime) : Type 0 where
  pub find_program_address : List (List ℕ) → ℕ → Option (ℕ × ℕ)
  pub found :
      (seeds : List (List ℕ)) (program address bump : ℕ)
      → find_program_address seeds program ≡ some (address, bump)
      → rt.create_program_address (seeds ++ (bump ∷ []) ∷ []) program ≡ some address

-- The creation of a token account, which another account pays for, at an address, for a mint and an
-- owner. The account is empty, and no other balance changes.
pub record TokenCreator (tp : TokenProgram) : Type 0 where
  pub create_token_account : tp.Ledger → Store → ℕ → ℕ → ℕ → ℕ → Option (tp.Ledger × Store)
  pub empty :
      (l l' : tp.Ledger) (store store' : Store) (payer key mint owner : ℕ)
      → create_token_account l store payer key mint owner ≡ some (l', store')
      → tp.amount l' key ≡ 0
  pub kept :
      (l l' : tp.Ledger) (store store' : Store) (payer key mint owner k : ℕ)
      → create_token_account l store payer key mint owner ≡ some (l', store')
      → k ≢ key
      → tp.amount l' k ≡ tp.amount l k

-- How accounts that the program has loaded are closed: a token account by the token program, which
-- an authority signs for, and an account of this program by the account framework. Either way the
-- lamports go to the destination. What the two calls are given is in the order of the source: the
-- account, the destination, the authority.
pub record AccountCloser (tp : TokenProgram) : Type 0 where
  pub close_token_account : tp.Ledger → Store → ℕ → ℕ → ℕ → Option (tp.Ledger × Store)
  pub close_account : Store → ℕ → ℕ → Option Store
