-- ===== src/Closing/Handler.antt =====
-- close_tournament.rs: the handler. The accounts of matches and participants are drained and given
-- back to the system program one by one, then, on the last call, the vault and the tournament.
use bracket_chain_programs.Prelude.{ℕ, Bool, ◌||◌, List, [], ◌∷◌, ◌==◌, if◌then◌else◌, checked_add}
use bracket_chain_programs.Errors.{
  Result, ok, code, panicked, cpi_failed, deserialize_failed, arithmetic_overflow,
  unauthorized_authority, invalid_match_index, tournament_in_progress, err, ◌>>=◌, ◌>>◌, require,
  ok_or,
}
use bracket_chain_programs.State.Tournament.{
  Tournament, TournamentStatus, is_completed, is_cancelled, is_partial_cancelled,
}
use bracket_chain_programs.Events.{Log, emit, tournament_closed}
use bracket_chain_programs.Runtime.{Runtime, TokenProgram}
use bracket_chain_programs.Accounts.{check_tournament, check_vault}
use bracket_chain_programs.Store.{Store, write, closed, embedded_key}
use bracket_chain_programs.Platform.{SystemProgram, AccountCloser}

-- The accounts beside those that are written.
pub record CloseContext : Type 0 where
  pub organizer : ℕ
  pub vault : ℕ
  pub remaining_accounts : List ℕ

-- What the handler writes.
pub record Closing (L : Type 0) : Type 0 where
  pub store : Store
  pub ledger : L
  pub log : Log

-- The statuses in which a tournament can be closed.
abbrev pub is_terminal : TournamentStatus → Bool
is_terminal status = is_completed status || is_cancelled status || is_partial_cancelled status

-- `acct.assign(&system_program::ID)` and `acct.realloc(0, false)`, at no lamports.
abbrev pub release : SystemProgram → ℕ → Store → Store
release sys k store =
    write store k (record (store k) { owner = sys.id; lamports = 0; contents = closed })

-- `close_account_info`
unfoldable pub close_account_info : SystemProgram → ℕ → ℕ → Store → Result Store
close_account_info sys dest k store = do
  lamports ←
      ok_or (checked_add 64 (store dest).lamports (store k).lamports) (code arithmetic_overflow)
  ok (release sys k (write store dest (record (store dest) { lamports = lamports })))

module _ (rt : Runtime) (sys : SystemProgram) (tournament_key organizer : ℕ) where
  -- One round of the loop, over the store and the number of accounts closed.
  unfoldable pub close_child : ℕ → Store × ℕ → Result (Store × ℕ)
  close_child k (store, accounts_closed) =
      if (store k).lamports == 0 then ok (store, accounts_closed) else do
        require ((store k).owner == rt.program_id) invalid_match_index
        embedded ← ok_or (embedded_key (store k).contents) (code invalid_match_index)
        require (embedded == tournament_key) invalid_match_index
        store' ← close_account_info sys organizer k store
        count ← ok_or (checked_add 32 accounts_closed 1) panicked
        ok (store', count)

  unfoldable pub close_children : List ℕ → Store × ℕ → Result (Store × ℕ)
  close_children [] p = ok p
  close_children (k ∷ ks) p = close_child k p >>= close_children ks

module _ (rt : Runtime) (tp : TokenProgram) (sys : SystemProgram) (closer : AccountCloser tp) where
  -- The last call: the vault, if it is empty, and the tournament.
  unfoldable pub close_root :
      CloseContext → Tournament → tp.Ledger → Store → Result (tp.Ledger × Store)
  close_root c t ledger store = do
    require (tp.amount ledger c.vault == 0) tournament_in_progress
    (ledger', store') ←
        ok_or (closer.close_token_account ledger store c.vault c.organizer t.key) cpi_failed
    store'' ← ok_or (closer.close_account store' t.key c.organizer) cpi_failed
    ok (ledger', store'')

  unfoldable pub close_tournament :
      CloseContext → Bool → Tournament → Closing tp.Ledger → Result (Closing tp.Ledger)
  close_tournament c root t s = do
    check_tournament rt t
    require (c.organizer == t.organizer) unauthorized_authority
    if (s.store c.organizer).owner == sys.id then ok tt else err deserialize_failed
    check_vault rt t c.vault
    require (is_terminal t.status) tournament_in_progress
    (store, accounts_closed) ←
        close_children rt sys t.key c.organizer c.remaining_accounts (s.store, 0)
    (ledger', store') ← if root then close_root c t s.ledger store else ok (s.ledger, store)
    ok (record {
      store = store';
      ledger = ledger';
      log = emit (tournament_closed t.key accounts_closed root) s.log;
    })
