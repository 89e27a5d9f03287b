-- ===== src/Errors.antt =====
-- programs/bracket-chain/src/errors.rs, and the results of fallible code. A transaction that fails
-- is rolled back by the runtime, so a result that is an error carries no state.
use bracket_chain_programs.Prelude.{
  ◌≡◌, ◌⊎◌, inl, inr, refl, Bool, Option, none, some, if◌then◌else◌,
}

-- The error codes of the program.
pub data BracketChainError : Type 0 where
  unauthorized_authority tournament_full already_registered : BracketChainError
  registration_closed not_in_registration not_active not_completed : BracketChainError
  invalid_payout_preset preset_exceeds_participants match_already_reported : BracketChainError
  non_participant_winner tournament_in_progress refund_already_issued : BracketChainError
  max_participants_exceeded min_participants_not_met name_too_long : BracketChainError
  invalid_token_mint invalid_vault invalid_treasury invalid_match_index : BracketChainError
  parent_matches_not_complete remaining_accounts_mismatch : BracketChainError
  arithmetic_overflow slot_hashes_unavailable game_not_yet_supported : BracketChainError
  attestation_required invalid_attestation_owner wrong_attestation_credential : BracketChainError
  wrong_attestation_schema attestation_wallet_mismatch attestation_expired : BracketChainError
  malformed_attestation settlement_mode_mismatch not_player_in_match : BracketChainError
  not_counterparty no_proposal proposal_already_exists invalid_proposed_winner : BracketChainError
  claim_window_not_elapsed proposal_disputed proposal_not_disputed : BracketChainError
  seed_not_revealed randomness_not_resolved randomness_account_mismatch : BracketChainError
  invalid_randomness_owner malformed_randomness seed_already_revealed : BracketChainError
  invalid_tournament_account migration_not_needed match_already_committed : BracketChainError
  match_not_committed wrong_feed_account oracle_winner_not_in_match : BracketChainError
  not_authorized bad_proposal_source invalid_custom_payout : BracketChainError
  untrusted_multi_placement_final bracket_seed_mismatch : BracketChainError
  non_participant_in_bracket invalid_oracle_config : BracketChainError

-- How an instruction can fail: by a code of its own, by a constraint of the account framework, by
-- a called program, by an account that is not of the expected type, or by a panic (an index out of bounds, an overflow under `overflow-checks`).
pub data Error : Type 0 where
  code : BracketChainError → Error
  constraint_seeds cpi_failed deserialize_failed panicked : Error

pub data Result {ℓ} (T : Type ℓ) : Type ℓ where
  err : Error → Result T
  ok : T → Result T

-- The operator `?`: the first error ends the function.
infixl 5 ◌>>=◌ ◌>>◌
abbrev pub ◌>>=◌ {ℓ κ} : {T : Type ℓ} → {U : Type κ} → Result T → (T → Result U) → Result U
err failure >>= then_do = err failure
ok value >>= then_do = then_do value

abbrev pub ◌>>◌ {κ} : {U : Type κ} → Result (Unit {0}) → Result U → Result U
check >> rest = check >>= λ passed. rest

-- `ok_or`
abbrev pub ok_or {ℓ} : {T : Type ℓ} → Option T → Error → Result T
ok_or (some value) failure = ok value
ok_or none failure = err failure

-- `require!`, `require_eq!` and `require_keys_eq!`
abbrev pub require : Bool → BracketChainError → Result (Unit {0})
require holds failure = if holds then ok tt else err (code failure)

-- A function that returned has passed its first `?`, and went on from there.
pub >>=-eq-ok {ℓ κ} :
    {T : Type ℓ}
    → {U : Type κ} → (r : Result T) → (then_do : T → Result U) → {u : U} → (r >>= then_do) ≡ ok u
    → (value : T) × (r ≡ ok value) × (then_do value ≡ ok u)
>>=-eq-ok (err failure) then_do returned = cc
>>=-eq-ok (ok value) then_do returned = (value, refl, returned)

pub Result-cases {ℓ} :
    {T : Type ℓ}
    → (r : Result T) → ((value : T) × (r ≡ ok value)) ⊎ ((failure : Error) × (r ≡ err failure))
Result-cases (err failure) = inr (failure, refl)
Result-cases (ok value) = inl (value, refl)
