-- ===== src/Refund/Handlers.antt =====
-- The handlers of cancel_tournament.rs, partial_cancel_tournament.rs and partial_refund_chunk.rs.
use bracket_chain_programs.Prelude.{ℕ, Bool, ◌||◌, Option, List, ◌==◌, if◌then◌else◌, ℤ}
use bracket_chain_programs.Errors.{
  Result, ok, tournament_in_progress, unauthorized_authority, ◌>>=◌, ◌>>◌, require,
}
use bracket_chain_programs.State.Tournament.{
  Tournament, TournamentStatus, is_registration, is_pending_bracket_init, is_active, is_cancelled,
  is_partial_cancelled,
}
use bracket_chain_programs.Events.{Log, emit, tournament_cancelled, tournament_partially_cancelled}
use bracket_chain_programs.Runtime.{Runtime, TokenProgram}
use bracket_chain_programs.Accounts.{check_tournament, check_vault}
use bracket_chain_programs.Refund.Process.{TokenAccount, Refunding, process_refunds}

-- The accounts of the refunding handlers beside those that they write.
pub record RefundContext : Type 0 where
  pub caller : ℕ
  pub vault : ℕ
  pub organizer_token_account : Option TokenAccount
  pub remaining_accounts : List ℕ
  pub now : ℤ

-- The first call of the organizer flips the status.
unfoldable pub flip_cancelled : {L : Type 0} → RefundContext → Refunding L → Result (Refunding L)
flip_cancelled c s = if is_cancelled s.tournament.status then ok s else do
  require (c.caller == s.tournament.organizer) unauthorized_authority
  ok (record s {
    tournament = record (s.tournament) { status = TournamentStatus.cancelled };
    log = emit (tournament_cancelled s.tournament.key c.caller c.now) s.log;
  })

-- The statuses in which a tournament can be cancelled.
abbrev pub is_cancellable : TournamentStatus → Bool
is_cancellable status =
    is_registration status || is_pending_bracket_init status || is_cancelled status

module _ (rt : Runtime) where
  unfoldable pub check_refund_accounts :
      {L : Type 0} → RefundContext → Refunding L → Result (Unit {0})
  check_refund_accounts c s = do
    check_tournament rt s.tournament
    check_vault rt s.tournament c.vault

  unfoldable pub partial_cancel_tournament : ℕ → ℤ → Tournament → Log → Result (Tournament × Log)
  partial_cancel_tournament organizer now t log = do
    check_tournament rt t
    require (t.organizer == organizer) unauthorized_authority
    require (is_active t.status) tournament_in_progress
    ok (
      record t { status = TournamentStatus.partial_cancelled },
      emit (tournament_partially_cancelled t.key organizer now) log,
    )

module _ (rt : Runtime) (tp : TokenProgram) where
  unfoldable pub cancel_tournament :
      RefundContext → Refunding tp.Ledger → Result (Refunding tp.Ledger)
  cancel_tournament c s = do
    check_refund_accounts rt c s
    require (is_cancellable s.tournament.status) tournament_in_progress
    s' ← flip_cancelled c s
    process_refunds rt tp c.vault c.organizer_token_account c.remaining_accounts s'

  unfoldable pub partial_refund_chunk :
      RefundContext → Refunding tp.Ledger → Result (Refunding tp.Ledger)
  partial_refund_chunk c s = do
    check_refund_accounts rt c s
    require (is_partial_cancelled s.tournament.status) tournament_in_progress
    process_refunds rt tp c.vault c.organizer_token_account c.remaining_accounts s
