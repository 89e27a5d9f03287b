-- ===== src/Tests/Closing.antt =====
-- The theorems on closing, at a partially cancelled tournament of two.
use bracket_chain_programs.Prelude.{
  ℕ, ◌+◌, ◌≡◌, refl, ◌≢◌, inl, false, none, some, [], ◌∷◌, arith, pos, ◌==◌, if◌then◌else◌,
}
use bracket_chain_programs.Errors.{Result, ok, err}
use bracket_chain_programs.State.Payout.{winner_takes_all}
use bracket_chain_programs.State.Tournament.{Tournament, TournamentStatus, SettlementMode}
use bracket_chain_programs.Runtime.{le_bytes}
use bracket_chain_programs.Accounts.{check_tournament, check_vault}
use bracket_chain_programs.Events.{emit, tournament_closed}
use bracket_chain_programs.Store.{Store, of_participant, closed}
use bracket_chain_programs.Platform.{AccountCloser}
use bracket_chain_programs.Refund.Process.{Refunding}
use bracket_chain_programs.Refund.Handlers.{RefundContext, cancel_tournament, partial_refund_chunk}
use bracket_chain_programs.Closing.Handler.{
  CloseContext, Closing, release, close_account_info, close_child, close_children, close_tournament,
}
use bracket_chain_programs.Closing.Outcome.{close_tournament-again}
use bracket_chain_programs.Closing.Lost.{closed_never_refunded}
use bracket_chain_programs.Tests.Ledger.{tokens, chain}
use bracket_chain_programs.Tests.Platform.{system}
use bracket_chain_programs.Tests.Bracket.{
  organizer, alice, bob, vault, tournament_of, participant_of, balances,
}

-- Closes an account by moving its lamports.
abbrev move_lamports : Store → ℕ → ℕ → Store
move_lamports store k dest = release system k (λ j.
    if j == dest
    then record (store j) { lamports = (store j).lamports + (store k).lamports }
    else store j)

abbrev closer : AccountCloser tokens
closer = record {
  close_token_account = λ l store k dest authority. some (l, move_lamports store k dest);
  close_account = λ store k dest. some (move_lamports store k dest);
}

abbrev over : Tournament
over = record (tournament_of winner_takes_all SettlementMode.player_reported 2) {
  status = TournamentStatus.partial_cancelled;
}

abbrev store : Store
store k =
    if k == 1_270
    then record { owner = 42; lamports = 30; contents = of_participant (participant_of alice) }
    else if k == 1_271
    then record { owner = 42; lamports = 31; contents = of_participant (participant_of bob) }
    else record { owner = 0; lamports = 7; contents = closed }

abbrev closing : Closing (ℕ → ℕ)
closing = record { store = store; ledger = balances; log = [] }

abbrev context : CloseContext
context = record { organizer = organizer; vault = vault; remaining_accounts = 1_270 ∷ 1_271 ∷ [] }

abbrev closing_or : Result (Closing (ℕ → ℕ)) → Closing (ℕ → ℕ)
closing_or (ok s) = s
closing_or (err e) = closing

abbrev swept : Closing (ℕ → ℕ)
swept = closing_or (close_tournament chain tokens system closer context false over closing)

children_closed : close_tournament chain tokens system closer context false over closing ≡ ok swept
unfolding close_tournament check_tournament check_vault le_bytes close_children close_child
    close_account_info
children_closed = refl

close_tournament-again_example :
    close_tournament chain tokens system closer context false over swept
    ≡ ok (record swept { log = emit (tournament_closed over.key 0 false) swept.log })
close_tournament-again_example =
    close_tournament-again chain tokens system closer context over closing swept (ground arith)
      children_closed

-- The refund of Alice, which was not paid.
abbrev refunding : Refunding (ℕ → ℕ)
refunding = record { tournament = over; store = swept.store; ledger = balances; log = [] }

abbrev for_alice : RefundContext
for_alice = record {
  caller = alice;
  vault = vault;
  organizer_token_account = none;
  remaining_accounts = 1_270 ∷ 21 ∷ [];
  now = pos 90;
}

closed_never_refunded_example :
    (cancel_tournament chain tokens for_alice refunding ≢ ok refunding)
    × (partial_refund_chunk chain tokens for_alice refunding ≢ ok refunding)
closed_never_refunded_example =
    closed_never_refunded chain tokens system closer context over closing swept 1_270 for_alice
      refunding refunding (omega arith) (ground arith) children_closed (inl refl) (omega arith) refl
      (inl refl)
