-- ===== src/Start/Descriptor.antt =====
-- start_tournament.rs: `MatchInitDescriptor`, and its validation against the seed. The cursor into
-- the participants' accounts is passed in and returned.
use bracket_chain_programs.Prelude.{
  ℕ, ◌+◌, ◌*◌, Bool, not, Option, none, some, List, ltb, ◌==◌, if◌then◌else◌, length, get_elem?,
  truncate,
}
use bracket_chain_programs.Errors.{
  Result, ok, panicked, deserialize_failed, remaining_accounts_mismatch, non_participant_in_bracket,
  bracket_seed_mismatch, ◌>>=◌, ◌>>◌, require, ok_or,
}
use bracket_chain_programs.State.{default_key}
use bracket_chain_programs.Runtime.{Runtime}
use bracket_chain_programs.Store.{Store, participant_in}
use bracket_chain_programs.Seeding.{round0_expected}

pub record MatchInitDescriptor : Type 0 where
  pub bracket : ℕ
  pub round : ℕ
  pub match_index : ℕ
  pub bump : ℕ
  pub player_a : ℕ
  pub player_b : ℕ
  pub bye : Bool

-- The accounts that the checks read: the permutation, the sizes of the bracket and the entry list,
-- the tournament and the tail of the remaining accounts.
pub record SeedContext : Type 0 where
  pub perm : List ℕ
  pub bracket_size : ℕ
  pub participant_count : ℕ
  pub tournament_key : ℕ
  pub participant_tail : List ℕ

module _ (rt : Runtime) (c : SeedContext) where
  -- The checks on the account that the cursor is at.
  unfoldable pub check_entrant : Store → ℕ → ℕ → ℕ → Result (Unit {0})
  check_entrant store k expected_wallet expected_seed_index = do
    require ((store k).owner == rt.program_id) non_participant_in_bracket
    p ← ok_or (participant_in (store k).contents) deserialize_failed
    require (p.tournament == c.tournament_key) non_participant_in_bracket
    require (p.wallet == expected_wallet) non_participant_in_bracket
    require (p.seed_index == expected_seed_index) bracket_seed_mismatch

  unfoldable pub consume_and_check : Store → ℕ → ℕ → ℕ → Result ℕ
  consume_and_check store cursor expected_wallet expected_seed_index = do
    require (ltb cursor (length c.participant_tail)) remaining_accounts_mismatch
    k ← ok_or (get_elem? c.participant_tail cursor) panicked
    check_entrant store k expected_wallet expected_seed_index
    ok (cursor + 1)

  -- The second slot of a match of round 0: an entrant, or a bye.
  unfoldable pub validate_opponent : Store → MatchInitDescriptor → Option ℕ → ℕ → Result ℕ
  validate_opponent store d none cursor = do
    require d.bye bracket_seed_mismatch
    require (d.player_b == default_key) bracket_seed_mismatch
    ok cursor
  validate_opponent store d (some exp_b) cursor = do
    require (not d.bye) bracket_seed_mismatch
    require (not (d.player_b == default_key)) bracket_seed_mismatch
    consume_and_check store cursor d.player_b exp_b

  unfoldable pub validate_round0 : Store → MatchInitDescriptor → ℕ → Result ℕ
  validate_round0 store d cursor = do
    expected ← round0_expected c.perm d.match_index c.bracket_size c.participant_count
    cursor' ← consume_and_check store cursor d.player_a expected.0
    validate_opponent store d expected.1 cursor'

  -- The slot of round 1 whose parent match has the expected entrants `parent`.
  unfoldable pub fill_from_parent : Store → ℕ → ℕ × Option ℕ → ℕ → Result ℕ
  fill_from_parent store slot_player (winner_seed, none) cursor = do
    require (not (slot_player == default_key)) bracket_seed_mismatch
    consume_and_check store cursor slot_player winner_seed
  fill_from_parent store slot_player (winner_seed, some opponent) cursor = do
    require (slot_player == default_key) bracket_seed_mismatch
    ok cursor

  unfoldable pub validate_round1_slot : Store → ℕ → ℕ → ℕ → Result ℕ
  validate_round1_slot store slot_player parent_match cursor = do
    parent ← round0_expected c.perm parent_match c.bracket_size c.participant_count
    fill_from_parent store slot_player parent cursor

  unfoldable pub validate_round1 : Store → MatchInitDescriptor → ℕ → Result ℕ
  validate_round1 store d cursor = do
    let parent_a = d.match_index * 2
    cursor' ← validate_round1_slot store d.player_a (truncate 16 parent_a) cursor
    validate_round1_slot store d.player_b (truncate 16 (parent_a + 1)) cursor'

  -- The slots of a later round are filled by `advance_winner`.
  unfoldable pub validate_later_round : MatchInitDescriptor → ℕ → Result ℕ
  validate_later_round d cursor = do
    require (d.player_a == default_key) bracket_seed_mismatch
    require (d.player_b == default_key) bracket_seed_mismatch
    ok cursor

  unfoldable pub validate_descriptor_against_seed : Store → MatchInitDescriptor → ℕ → Result ℕ
  validate_descriptor_against_seed store d cursor =
      if d.round == 0
      then validate_round0 store d cursor
      else (require (not d.bye) bracket_seed_mismatch
          >> (if d.round == 1
              then validate_round1 store d cursor
              else validate_later_round d cursor))
