-- ===== src/Tests/Refund.antt =====
-- The theorems on refunds at a cancelled bracket of two, whose vault holds two fees of 450 and a
-- deposit of 100.
use bracket_chain_programs.Prelude.{
  ℕ, ◌≡◌, ◌⊎◌, refl, some, none, [], ◌∷◌, arith, pos, ◌==◌, if◌then◌else◌,
}
use bracket_chain_programs.Errors.{Result, ok, err}
use bracket_chain_programs.State.Payout.{winner_takes_all}
use bracket_chain_programs.State.Tournament.{TournamentStatus, SettlementMode}
use bracket_chain_programs.Runtime.{validate_token_account, le_bytes}
use bracket_chain_programs.Accounts.{check_tournament, check_vault}
use bracket_chain_programs.Store.{Store, Stored, of_participant, of_bytes}
use bracket_chain_programs.Refund.Process.{
  Refunding, return_deposit, refund_deposit, pay_refund, refund_one, refund_pairs, process_refunds,
}
use bracket_chain_programs.Refund.Handlers.{
  RefundContext, flip_cancelled, check_refund_accounts, cancel_tournament, partial_refund_chunk,
}
use bracket_chain_programs.Refund.Again.{cancel_tournament-again}
use bracket_chain_programs.Refund.Once.{IsEntrant, IsRefunded}
use bracket_chain_programs.Refund.Live.{CanRefund, partial_refund_chunk-total}
use bracket_chain_programs.Refund.Outcome.{
  IsProper, IsProcessed, cancel_tournament-outcome, partial_refund_chunk-outcome,
}
use bracket_chain_programs.Tests.Ledger.{tokens, chain, transfer, move}
use bracket_chain_programs.Tests.Bracket.{
  organizer, alice, bob, vault, tournament_of, participant_of, token_account, balances,
}

abbrev token_account_at : ℕ → ℕ → Stored
token_account_at key wallet = record {
  owner = 99;
  lamports = 0;
  contents = of_bytes (token_account key wallet).bytes;
}

abbrev participant_at : ℕ → Stored
participant_at wallet = record {
  owner = 42;
  lamports = 0;
  contents = of_participant (participant_of wallet);
}

-- The participants' accounts at 1,270 and 1,271, and their token accounts at 21 and 22.
abbrev accounts : Store
accounts k =
    if k == 1_270
    then participant_at alice
    else if k == 1_271
    then participant_at bob
    else if k == 21
    then token_account_at 21 alice
    else token_account_at 22 bob

-- The vault holds a deposit of 100 beside the fees.
abbrev refunding_of : TournamentStatus → Refunding (ℕ → ℕ)
refunding_of status = record {
  tournament = record (tournament_of winner_takes_all SettlementMode.player_reported 2) {
    status = status;
    organizer_deposit = 100;
    entry_fee = 450;
  };
  store = accounts;
  ledger = balances;
  log = [];
}

abbrev cancelling : RefundContext
cancelling = record {
  caller = organizer;
  vault = vault;
  organizer_token_account = some (record { key = 25; mint = 9; owner = organizer });
  remaining_accounts = 1_270 ∷ 21 ∷ 1_271 ∷ 22 ∷ 1_270 ∷ 21 ∷ [];
  now = pos 90;
}

cancelling-IsProper : IsProper chain tokens cancelling (1_270 ∷ 1_271 ∷ [])
cancelling-IsProper = record {
  distinct = ground arith;
  covered = ground arith;
  outside = omega arith;
}

abbrev refunding_or : Refunding (ℕ → ℕ) → Result (Refunding (ℕ → ℕ)) → Refunding (ℕ → ℕ)
refunding_or s (ok s') = s'
refunding_or s (err e) = s

abbrev cancelled : Refunding (ℕ → ℕ)
cancelled =
    refunding_or (refunding_of TournamentStatus.registration)
      (cancel_tournament chain tokens cancelling (refunding_of TournamentStatus.registration))

organizer_cancelled :
    cancel_tournament chain tokens cancelling (refunding_of TournamentStatus.registration)
    ≡ ok cancelled
unfolding cancel_tournament check_refund_accounts check_tournament check_vault le_bytes
    flip_cancelled process_refunds refund_deposit return_deposit refund_pairs refund_one pay_refund
    validate_token_account transfer move
organizer_cancelled = refl

cancel_tournament-outcome_example :
    ((TournamentStatus.registration ≡ TournamentStatus.cancelled)
      ⊎ ((cancelling.caller ≡ organizer)
          × ((TournamentStatus.registration ≡ TournamentStatus.registration)
              ⊎ (TournamentStatus.registration ≡ TournamentStatus.pending_bracket_init))))
    × IsProcessed chain tokens cancelling
        (1_270 ∷ 1_271 ∷ [])
        TournamentStatus.cancelled
        (refunding_of TournamentStatus.registration)
        cancelled
cancel_tournament-outcome_example =
    cancel_tournament-outcome chain tokens cancelling (1_270 ∷ 1_271 ∷ [])
      (refunding_of TournamentStatus.registration) cancelled cancelling-IsProper organizer_cancelled

cancel_tournament-again_example :
    (cancelled.tournament.status ≡ TournamentStatus.cancelled)
    × (cancel_tournament chain tokens (record cancelling { caller = 77 }) cancelled ≡ ok cancelled)
cancel_tournament-again_example =
    cancel_tournament-again chain tokens cancelling (refunding_of TournamentStatus.registration)
      cancelled 77 organizer_cancelled

abbrev partly_refunded : Refunding (ℕ → ℕ)
partly_refunded =
    refunding_or (refunding_of TournamentStatus.partial_cancelled) (
      partial_refund_chunk chain tokens cancelling
        (refunding_of TournamentStatus.partial_cancelled))

chunk_refunded :
    partial_refund_chunk chain tokens cancelling (refunding_of TournamentStatus.partial_cancelled)
    ≡ ok partly_refunded
unfolding partial_refund_chunk check_refund_accounts check_tournament check_vault le_bytes
    process_refunds refund_deposit return_deposit refund_pairs refund_one pay_refund
    validate_token_account transfer move
chunk_refunded = refl

partial_refund_chunk-outcome_example :
    (TournamentStatus.partial_cancelled ≡ TournamentStatus.partial_cancelled)
    × IsProcessed chain tokens cancelling
        (1_270 ∷ 1_271 ∷ [])
        TournamentStatus.partial_cancelled
        (refunding_of TournamentStatus.partial_cancelled)
        partly_refunded
partial_refund_chunk-outcome_example =
    partial_refund_chunk-outcome chain tokens cancelling (1_270 ∷ 1_271 ∷ [])
      (refunding_of TournamentStatus.partial_cancelled) partly_refunded cancelling-IsProper
      chunk_refunded

-- A stranger's call for Alice.
abbrev chunk_for_alice : RefundContext
chunk_for_alice = record cancelling {
  caller = 77;
  organizer_token_account = none;
  remaining_accounts = 1_270 ∷ 21 ∷ [];
}

chunk_for_alice-checked :
    check_refund_accounts chain chunk_for_alice (refunding_of TournamentStatus.partial_cancelled)
    ≡ ok tt
unfolding check_refund_accounts check_tournament check_vault le_bytes
chunk_for_alice-checked = refl

alice-IsEntrant :
    IsEntrant chain tokens vault
      (refunding_of TournamentStatus.partial_cancelled)
      1_270
      (participant_of alice)
alice-IsEntrant = record { owned = refl; stored = refl; registered = refl }

alice-CanRefund :
    CanRefund chain tokens vault
      (refunding_of TournamentStatus.partial_cancelled)
      21
      (participant_of alice)
unfolding validate_token_account le_bytes
alice-CanRefund = record {
  valid = refl;
  can_pay = omega arith;
  covered = omega arith;
  fits = omega arith;
}

partial_refund_chunk-total_example :
    (s' : Refunding (ℕ → ℕ)) × (partial_refund_chunk chain tokens chunk_for_alice
        (refunding_of TournamentStatus.partial_cancelled)
      ≡ ok s')
    × IsRefunded chain tokens vault s' 1_270
partial_refund_chunk-total_example =
    partial_refund_chunk-total chain tokens chunk_for_alice
      (refunding_of TournamentStatus.partial_cancelled) 1_270 21 (participant_of alice) refl refl
      chunk_for_alice-checked refl alice-IsEntrant alice-CanRefund
