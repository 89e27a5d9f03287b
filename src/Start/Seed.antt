-- ===== src/Start/Seed.antt =====
-- start_tournament.rs: the branch for a tournament in registration. `is_power_of_two` and
-- `checked_next_power_of_two` of the standard library are written out by doubling.
use bracket_chain_programs.Prelude.{
  ℕ, zero, suc, ◌+◌, ◌*◌, not, Option, none, some, List, [], ◌∷◌, ltb, leb, ◌==◌, if◌then◌else◌,
  length, le_number, slice, checked_sub,
}
use bracket_chain_programs.Errors.{
  Result, ok, code, min_participants_not_met, seed_not_revealed, slot_hashes_unavailable,
  arithmetic_overflow, ◌>>=◌, ◌>>◌, require, ok_or,
}
use bracket_chain_programs.Constants.{min_participants_allowed, seed_domain}
use bracket_chain_programs.State.{default_key}
use bracket_chain_programs.State.Tournament.{
  Tournament, TournamentStatus, is_registration, is_organizer_only,
}
use bracket_chain_programs.Runtime.{le_bytes}
use bracket_chain_programs.Platform.{Keccak}

-- The entries of the loop over the slot hashes, `count` of them from the i-th on.
unfoldable pub mix_entries : ℕ → ℕ → List ℕ → List (List ℕ)
mix_entries zero i sysvar = []
mix_entries (suc count) i sysvar =
    let rest = mix_entries count (i + 1) sysvar in
    let off = 8 + i * 40 in
    if ltb (length sysvar) (off + 40) then [] else slice sysvar off (off + 40) ∷ rest

-- `entry_count.min(MAX_MIX_ENTRIES).max(1)`
abbrev mix_count : ℕ → ℕ
mix_count entry_count =
    let capped = if leb entry_count 8 then entry_count else 8 in if leb 1 capped then capped else 1

unfoldable pub slot_hash_seed : Keccak → Tournament → List ℕ → List ℕ
slot_hash_seed keccak t sysvar = keccak (
    seed_domain
    ∷ le_bytes 32 t.key
    ∷ le_bytes 32 t.organizer
    ∷ le_bytes 2 t.participant_count
    ∷ mix_entries (mix_count (le_number (slice sysvar 0 8))) 0 sysvar)

-- The fallback to the slot hashes, where no randomness account is bound.
unfoldable pub fallback_seed : Keccak → List ℕ → Tournament → Result Tournament
fallback_seed keccak sysvar t = do
  require (is_organizer_only t.settlement_mode) seed_not_revealed
  require (leb 48 (length sysvar)) slot_hashes_unavailable
  ok (record t { seed_hash = slot_hash_seed keccak t sysvar })

unfoldable pub fix_seed : Keccak → List ℕ → Tournament → Result Tournament
fix_seed keccak sysvar t =
    if not (t.vrf_randomness_account == default_key)
    then (require t.seed_revealed seed_not_revealed >> ok t)
    else fallback_seed keccak sysvar t

-- The first of `p`, `2 * p`, … that is `n` at least, among `fuel` of them.
unfoldable pub doubling : ℕ → ℕ → ℕ → Option ℕ
doubling zero p n = none
doubling (suc fuel) p n = let more = doubling fuel (2 * p) n in if leb n p then some p else more

-- `checked_next_power_of_two` of a word of 16 bits, which is the number itself at a power of two.
unfoldable pub next_power_of_two : ℕ → Option ℕ
next_power_of_two n = doubling 16 1 n

unfoldable pub size_bracket : Tournament → Result Tournament
size_bracket t = do
  size ← ok_or (next_power_of_two t.participant_count) (code arithmetic_overflow)
  total ← ok_or (checked_sub size 1) (code arithmetic_overflow)
  ok (record t {
    bracket_size = size;
    total_matches = total;
    status = TournamentStatus.pending_bracket_init;
  })

-- The first chunk.
unfoldable pub open_bracket : Keccak → List ℕ → Tournament → Result Tournament
open_bracket keccak sysvar t = if not (is_registration t.status) then ok t else do
  require (leb min_participants_allowed t.participant_count) min_participants_not_met
  t' ← fix_seed keccak sysvar t
  size_bracket t'
