-- ===== src/Start/Seeded.antt =====
-- What a descriptor that passes `validate_descriptor_against_seed` says: its players are the ones
-- that the shuffle mandates, each shown by a participant's account.
use bracket_chain_programs.Prelude.{
  ℕ, ◌+◌, ◌*◌, ◌<◌, ◌≡◌, ◌≢◌, true, false, Option, none, some, arith, Bool-cases, Option-cases, inl,
  inr, ◌==◌, truncate, get_elem?,
}
use bracket_chain_programs.Errors.{Result, ok, Result-cases, >>=-eq-ok}
use bracket_chain_programs.State.Participant.{Participant}
use bracket_chain_programs.Runtime.{Runtime}
use bracket_chain_programs.Store.{Store, participant_in}
use bracket_chain_programs.Seeding.{round0_expected}
use bracket_chain_programs.Start.Descriptor.{
  MatchInitDescriptor, SeedContext, check_entrant, consume_and_check, validate_opponent,
  validate_round0, fill_from_parent, validate_round1_slot, validate_round1, validate_later_round,
  validate_descriptor_against_seed,
}

module _ (rt : Runtime) (c : SeedContext) where
  -- An account of the program holds the participant of this tournament with the wallet and the index.
  pub record IsPlaced (store : Store) (wallet index : ℕ) : Type 0 where
    pub account : ℕ
    pub participant : Participant
    pub owned : (store account).owner ≡ rt.program_id
    pub stored : participant_in (store account).contents ≡ some participant
    pub registered : participant.tournament ≡ c.tournament_key
    pub same_wallet : participant.wallet ≡ wallet
    pub same_index : participant.seed_index ≡ index

  -- The entrants that the shuffle gives a match of round 0.
  abbrev pub entrants : ℕ → Result (ℕ × Option ℕ)
  entrants m = round0_expected c.perm m c.bracket_size c.participant_count

  -- A slot of round 1: the winner of a bye stands in it, and otherwise nobody yet.
  pub data IsFed (store : Store) (player parent : ℕ) : Type 0 where
    by_bye :
        (a : ℕ)
        → entrants parent ≡ ok (a, none)
        → player ≢ 0
        → IsPlaced store player a
        → IsFed store player parent
    by_match : (a b : ℕ) → entrants parent ≡ ok (a, some b) → player ≡ 0 → IsFed store player parent

  pub data IsSeeded (store : Store) (d : MatchInitDescriptor) : Type 0 where
    paired :
        (a b : ℕ)
        → d.round ≡ 0
        → entrants d.match_index ≡ ok (a, some b)
        → d.bye ≡ false
        → IsPlaced store d.player_a a
        → IsPlaced store d.player_b b
        → IsSeeded store d
    alone :
        (a : ℕ)
        → d.round ≡ 0
        → entrants d.match_index ≡ ok (a, none)
        → d.bye ≡ true
        → IsPlaced store d.player_a a
        → d.player_b ≡ 0
        → IsSeeded store d
    second :
        d.round ≡ 1
        → d.bye ≡ false
        → IsFed store d.player_a (truncate 16 (d.match_index * 2))
        → IsFed store d.player_b (truncate 16 (d.match_index * 2 + 1))
        → IsSeeded store d
    later : 1 < d.round → d.bye ≡ false → d.player_a ≡ 0 → d.player_b ≡ 0 → IsSeeded store d

  module _ (store : Store) where
    check_entrant-IsPlaced :
        (k wallet index : ℕ)
        → check_entrant rt c store k wallet index ≡ ok tt
        → IsPlaced store wallet index
    unfolding check_entrant
    check_entrant-IsPlaced k wallet index h =
        elim (Option-cases (participant_in (store k).contents)) [
          | inl e ↦ absurd (ground arith)
          | inr (p, e) ↦ record {
            account = k;
            participant = p;
            owned = ground arith;
            stored = e;
            registered = ground arith;
            same_wallet = ground arith;
            same_index = ground arith;
          }
        ]

    consume_and_check-IsPlaced :
        (cursor wallet index cursor' : ℕ)
        → consume_and_check rt c store cursor wallet index ≡ ok cursor'
        → IsPlaced store wallet index
    unfolding consume_and_check
    consume_and_check-IsPlaced cursor wallet index cursor' h =
        elim (Option-cases (get_elem? c.participant_tail cursor)) [
          | inl e ↦ absurd (ground arith)
          | inr (k, e) ↦ elim (Result-cases (check_entrant rt c store k wallet index)) [
            | inl (_, passed) ↦ check_entrant-IsPlaced k wallet index (ground arith)
            | inr (x, failed) ↦ absurd (ground arith)
          ]
        ]

    fill_from_parent-IsFed :
        (player parent : ℕ) (e : ℕ × Option ℕ) (cursor cursor' : ℕ)
        → entrants parent ≡ ok e
        → fill_from_parent rt c store player e cursor ≡ ok cursor'
        → IsFed store player parent
    unfolding fill_from_parent
    fill_from_parent-IsFed player parent (a, none) cursor cursor' e h =
        by_bye a e (ground arith)
          (consume_and_check-IsPlaced cursor player a cursor' (ground arith))
    fill_from_parent-IsFed player parent (a, some b) cursor cursor' e h =
        by_match a b e (ground arith)

    validate_round1_slot-IsFed :
        (player parent cursor cursor' : ℕ)
        → validate_round1_slot rt c store player parent cursor ≡ ok cursor'
        → IsFed store player parent
    unfolding validate_round1_slot
    validate_round1_slot-IsFed player parent cursor cursor' h =
        let (e, expected, filled) =
          >>=-eq-ok (entrants parent) (λ e. fill_from_parent rt c store player e cursor) h in
        fill_from_parent-IsFed player parent e cursor cursor' expected filled

    module _ (d : MatchInitDescriptor) (cursor cursor' : ℕ) where
      validate_opponent-IsSeeded :
          (e : ℕ × Option ℕ) (next : ℕ)
          → d.round ≡ 0
          → entrants d.match_index ≡ ok e
          → IsPlaced store d.player_a e.0
          → validate_opponent rt c store d e.1 next ≡ ok cursor'
          → IsSeeded store d
      unfolding validate_opponent
      validate_opponent-IsSeeded (a, none) next first expected placed h =
          alone a first expected (ground arith) placed (ground arith)
      validate_opponent-IsSeeded (a, some b) next first expected placed h =
          paired a b first expected (ground arith) placed
            (consume_and_check-IsPlaced next d.player_b b cursor' (ground arith))

      validate_round0-IsSeeded :
          d.round ≡ 0 → validate_round0 rt c store d cursor ≡ ok cursor' → IsSeeded store d
      unfolding validate_round0
      validate_round0-IsSeeded first h =
          let (e, expected, rest) = >>=-eq-ok (entrants d.match_index) _ h in
          let (next, placed, opponent) =
            >>=-eq-ok (consume_and_check rt c store cursor d.player_a e.0) _ rest in
          validate_opponent-IsSeeded e next first expected
            (consume_and_check-IsPlaced cursor d.player_a e.0 next placed) opponent

      validate_round1-IsSeeded :
          d.round ≡ 1
          → d.bye ≡ false
          → validate_round1 rt c store d cursor ≡ ok cursor'
          → IsSeeded store d
      unfolding validate_round1
      validate_round1-IsSeeded one no_bye h =
          let (next, first, rest) =
            >>=-eq-ok
              (validate_round1_slot rt c store d.player_a (truncate 16 (d.match_index * 2)) cursor)
              _ h in
          second one no_bye
            (validate_round1_slot-IsFed d.player_a (truncate 16 (d.match_index * 2)) cursor next
              first)
            (validate_round1_slot-IsFed d.player_b (truncate 16 (d.match_index * 2 + 1)) next
              cursor' rest)

      -- A descriptor that passes the check against the seed is seeded: in round 0 its players are
      -- the entrants that the shuffle gives its match, shown by their accounts, with a bye exactly
      -- where there is no second entrant; in round 1 the winners of byes, and in later rounds nobody.
      pub validate_descriptor-IsSeeded :
          validate_descriptor_against_seed rt c store d cursor ≡ ok cursor' → IsSeeded store d
      unfolding validate_descriptor_against_seed validate_later_round
      validate_descriptor-IsSeeded h = elim (Bool-cases (d.round == 0)) [
        | inl e ↦ validate_round0-IsSeeded (ground arith) (ground arith)
        | inr e ↦ elim (Bool-cases (d.round == 1)) [
          | inl one ↦ validate_round1-IsSeeded (ground arith) (ground arith) (ground arith)
          | inr other ↦ later (ground arith) (ground arith) (ground arith) (ground arith)
        ]
      ]
