-- ===== src/Randomness/Handler.antt =====
-- request_seed.rs and reveal_seed.rs. Each reads the randomness account and writes the tournament.
use bracket_chain_programs.Prelude.{ℕ, true, not, ◌==◌}
use bracket_chain_programs.Errors.{
  Result, ok, code, unauthorized_authority, not_in_registration, settlement_mode_mismatch,
  seed_already_revealed, invalid_randomness_owner, malformed_randomness, randomness_not_resolved,
  randomness_account_mismatch, ◌>>=◌, ◌>>◌, require, ok_or,
}
use bracket_chain_programs.State.Tournament.{Tournament, is_registration, is_organizer_only}
use bracket_chain_programs.Runtime.{Runtime, AccountInfo}
use bracket_chain_programs.Accounts.{check_tournament}
use bracket_chain_programs.Switchboard.{Switchboard, is_on_demand}

module _ (rt : Runtime) (sb : Switchboard) where
  -- The signer is the organizer, the slot the clock's.
  unfoldable pub request_seed : ℕ → AccountInfo → ℕ → Tournament → Result Tournament
  request_seed organizer randomness_account slot t = do
    require (organizer == t.organizer) unauthorized_authority
    check_tournament rt t
    require (is_registration t.status) not_in_registration
    require (not (is_organizer_only t.settlement_mode)) settlement_mode_mismatch
    require (not t.seed_revealed) seed_already_revealed
    require (is_on_demand randomness_account.owner) invalid_randomness_owner
    parsed ← ok_or (sb.parse_randomness randomness_account.bytes) (code malformed_randomness)
    ok (record t { vrf_randomness_account = randomness_account.key; vrf_commit_slot = slot })

  unfoldable pub reveal_seed : AccountInfo → ℕ → Tournament → Result Tournament
  reveal_seed randomness_account slot t = do
    check_tournament rt t
    require (randomness_account.key == t.vrf_randomness_account) randomness_account_mismatch
    require (not t.seed_revealed) seed_already_revealed
    require (is_on_demand randomness_account.owner) invalid_randomness_owner
    randomness ← ok_or (sb.parse_randomness randomness_account.bytes) (code malformed_randomness)
    value ← ok_or (sb.get_randomness randomness slot) (code randomness_not_resolved)
    ok (record t { seed_hash = value; seed_revealed = true })
