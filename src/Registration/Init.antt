-- ===== src/Registration/Init.antt =====
-- The constraint `#[account(init, payer = …, space = …, seeds = […], bump)]`.
use bracket_chain_programs.Prelude.{ℕ, List, ◌==◌, if◌then◌else◌}
use bracket_chain_programs.Errors.{
  Result, ok, err, panicked, constraint_seeds, cpi_failed, ◌>>=◌, ok_or,
}
use bracket_chain_programs.Runtime.{Runtime}
use bracket_chain_programs.Store.{Store}
use bracket_chain_programs.Platform.{SystemProgram, Finder}

module _ (rt : Runtime) (finder : Finder rt) where
  -- The bump of the address that the seeds give, which must be the key.
  unfoldable pub find_bump : List (List ℕ) → ℕ → Result ℕ
  find_bump seeds key = do
    (address, bump) ← ok_or (finder.find_program_address seeds rt.program_id) panicked
    if address == key then ok bump else err constraint_seeds

  unfoldable pub init_account :
      SystemProgram → Store → ℕ → List (List ℕ) → ℕ → ℕ → Result (Store × ℕ)
  init_account sys store payer seeds key space = do
    bump ← find_bump seeds key
    created ←
        ok_or (sys.create_account store payer key (sys.minimum_balance space) space rt.program_id)
          cpi_failed
    ok (created, bump)
