-- ===== src/Refund/Process.antt =====
-- The refunds: of the organizer's deposit, and of the entry fee of each participant handed over.
use bracket_chain_programs.Prelude.{
  ℕ, ◌%◌, true, not, ◌&&◌, Option, none, some, List, [], ◌∷◌, ltb, ◌==◌, if◌then◌else◌, length,
}
use bracket_chain_programs.Errors.{
  Result, ok, err, panicked, deserialize_failed, invalid_token_mint, unauthorized_authority,
  invalid_match_index, remaining_accounts_mismatch, ◌>>=◌, ◌>>◌, require, ok_or,
}
use bracket_chain_programs.State.Tournament.{Tournament}
use bracket_chain_programs.State.Participant.{Participant}
use bracket_chain_programs.Events.{Log, emit, refund_issued}
use bracket_chain_programs.Runtime.{Runtime, TokenProgram, token_transfer, validate_token_account}
use bracket_chain_programs.Store.{Store, write, of_participant, participant_in, info_at}

-- A token account that the account framework has read.
pub record TokenAccount : Type 0 where
  pub key : ℕ
  pub mint : ℕ
  pub owner : ℕ

-- What the refunds write.
pub record Refunding (L : Type 0) : Type 0 where
  pub tournament : Tournament
  pub store : Store
  pub ledger : L
  pub log : Log

module _ (rt : Runtime) (tp : TokenProgram) (vault : ℕ) where
  -- The transfer of the deposit to the organizer's account.
  unfoldable pub return_deposit : TokenAccount → Refunding tp.Ledger → Result (Refunding tp.Ledger)
  return_deposit organizer_ata s = do
    let t = s.tournament
    require (organizer_ata.mint == t.token_mint) invalid_token_mint
    require (organizer_ata.owner == t.organizer) unauthorized_authority
    ledger ← token_transfer tp s.ledger vault organizer_ata.key t.key t.organizer_deposit
    ok (record s {
      tournament = record t { organizer_deposit_refunded = true };
      ledger = ledger;
      log = emit (refund_issued t.key t.organizer t.organizer_deposit) s.log;
    })

  -- It is made once, and skipped where the account is not given.
  unfoldable pub refund_deposit :
      Option TokenAccount → Refunding tp.Ledger → Result (Refunding tp.Ledger)
  refund_deposit none s = ok s
  refund_deposit (some organizer_ata) s =
      if ltb 0 s.tournament.organizer_deposit && not s.tournament.organizer_deposit_refunded
      then return_deposit organizer_ata s
      else ok s

  -- The transfer of the entry fee to a participant, whose flag is written back.
  unfoldable pub pay_refund :
      ℕ → Participant → ℕ → Refunding tp.Ledger → Result (Refunding tp.Ledger)
  pay_refund k p ata s = do
    let t = s.tournament
    validate_token_account tp.id (info_at s.store ata) p.wallet t.token_mint
    ledger ← token_transfer tp s.ledger vault ata t.key t.entry_fee
    ok (record s {
      store =
          write s.store k
            (record (s.store k) { contents = of_participant (record p { refund_paid = true }) });
      ledger = ledger;
      log = emit (refund_issued t.key p.wallet t.entry_fee) s.log;
    })

  -- One round of the loop over the pairs: the participant's account and its token account.
  unfoldable pub refund_one : ℕ → ℕ → Refunding tp.Ledger → Result (Refunding tp.Ledger)
  refund_one k ata s = do
    require ((s.store k).owner == rt.program_id) invalid_match_index
    p ← ok_or (participant_in (s.store k).contents) deserialize_failed
    require (p.tournament == s.tournament.key) invalid_match_index
    if p.refund_paid then ok s else pay_refund k p ata s

  unfoldable pub refund_pairs : List ℕ → Refunding tp.Ledger → Result (Refunding tp.Ledger)
  refund_pairs [] s = ok s
  refund_pairs (k ∷ []) s = err panicked
  refund_pairs (k ∷ ata ∷ rest) s = refund_one k ata s >>= refund_pairs rest

  unfoldable pub process_refunds :
      Option TokenAccount → List ℕ → Refunding tp.Ledger → Result (Refunding tp.Ledger)
  process_refunds organizer_ata remaining_accounts s = do
    require (length remaining_accounts % 2 == 0) remaining_accounts_mismatch
    s' ← refund_deposit organizer_ata s
    refund_pairs remaining_accounts s'
