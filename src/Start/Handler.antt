-- ===== src/Start/Handler.antt =====
-- start_tournament.rs: the handler. Each match is created at its address by the system program and
-- written; byes are counted as reported.
use bracket_chain_programs.Prelude.{
  ℕ, ◌+◌, ◌/◌, ◌^◌, Bool, false, not, ◌&&◌, ◌||◌, Option, none, some, List, [], ◌∷◌, ◌++◌, ltb, leb,
  ◌==◌, if◌then◌else◌, length, take, drop, checked_add, truncate, ℤ, pos,
}
use bracket_chain_programs.Errors.{
  Result, ok, code, panicked, cpi_failed, remaining_accounts_mismatch, not_in_registration,
  invalid_match_index, arithmetic_overflow, unauthorized_authority, ◌>>=◌, ◌>>◌, require, ok_or,
}
use bracket_chain_programs.Constants.{match_seed}
use bracket_chain_programs.State.{default_key}
use bracket_chain_programs.State.Tournament.{
  Tournament, TournamentStatus, is_pending_bracket_init, is_organizer_only,
}
use bracket_chain_programs.State.MatchNode.{MatchNode, MatchStatus, ProposalSource}
use bracket_chain_programs.Events.{Log, emit, tournament_started}
use bracket_chain_programs.Runtime.{Runtime, le_bytes}
use bracket_chain_programs.Accounts.{check_tournament}
use bracket_chain_programs.Store.{Store, write, of_match}
use bracket_chain_programs.Platform.{SystemProgram, Keccak}
use bracket_chain_programs.Settlement.Finalize.{max_round_of}
use bracket_chain_programs.Seeding.{seed_permutation}
use bracket_chain_programs.Start.Seed.{open_bracket}
use bracket_chain_programs.Start.Descriptor.{
  MatchInitDescriptor, SeedContext, validate_descriptor_against_seed,
}

-- The account of a match as the account framework derives its size: 8 bytes of discriminator and
-- the fields of `MatchNode`.
abbrev pub match_space : ℕ
match_space = 387

-- `a >> n` on a word of 16 bits
abbrev pub shift_right16 : ℕ → ℕ → Option ℕ
shift_right16 a n = if ltb n 16 then some (a / 2 ^ n) else none

unfoldable pub node_status : MatchInitDescriptor → MatchStatus
node_status d =
    if d.bye
    then MatchStatus.completed
    else if not (d.player_a == default_key) && not (d.player_b == default_key)
    then MatchStatus.active
    else MatchStatus.pending

-- The node that is written for a descriptor, at the address `k`.
unfoldable pub node_of : ℕ → ℕ → MatchInitDescriptor → MatchNode
node_of tournament_key k d = record {
  key = k;
  tournament = tournament_key;
  bracket = d.bracket;
  round = d.round;
  match_index = d.match_index;
  player_a = d.player_a;
  player_b = if d.bye then default_key else d.player_b;
  winner = if d.bye then d.player_a else default_key;
  status = node_status d;
  bye = d.bye;
  bump = d.bump;
  proposal_source = ProposalSource.no_source;
  proposer = default_key;
  proposed_winner = default_key;
  proposed_at = pos 0;
  claim_deadline = pos 0;
  disputed = false;
  dispute_reason = 0;
  commitment = none;
  switchboard_feed = default_key;
}

-- The accounts beside those that are written, and the clock.
pub record StartContext : Type 0 where
  pub organizer : ℕ
  pub slot_hashes : List ℕ
  pub remaining_accounts : List ℕ
  pub now : ℤ

-- What the handler writes.
pub record Starting : Type 0 where
  pub tournament : Tournament
  pub store : Store
  pub log : Log

-- The variables of the loop.
pub record Progress : Type 0 where
  pub store : Store
  pub cursor : ℕ
  pub byes : ℕ

-- The seeds of a match's address, without the bump.
abbrev pub match_seeds : ℕ → MatchInitDescriptor → List (List ℕ)
match_seeds tournament_key d =
    match_seed
    ∷ le_bytes 32 tournament_key
    ∷ (d.bracket ∷ [])
    ∷ (d.round ∷ [])
    ∷ le_bytes 2 d.match_index
    ∷ []

module _ (rt : Runtime) (sys : SystemProgram) (organizer : ℕ) (vrf_mode : Bool)
    (s : SeedContext) where
  -- The bounds of the round and the index.
  unfoldable pub check_position : MatchInitDescriptor → Result (Unit {0})
  check_position d = do
    require (ltb d.round (max_round_of s.bracket_size)) invalid_match_index
    matches_in_round ← ok_or (shift_right16 s.bracket_size (d.round + 1)) panicked
    require (ltb d.match_index matches_in_round) invalid_match_index

  unfoldable pub check_seeded : MatchInitDescriptor → Progress → Result ℕ
  check_seeded d p =
      if vrf_mode then validate_descriptor_against_seed rt s p.store d p.cursor else ok p.cursor

  -- The account of the match, created and written.
  unfoldable pub create_match : MatchInitDescriptor → ℕ → Store → Result Store
  create_match d k store = do
    expected_pda ←
        ok_or
          (rt.create_program_address (match_seeds s.tournament_key d ++ (d.bump ∷ []) ∷ [])
            rt.program_id)
          (code invalid_match_index)
    require (k == expected_pda) invalid_match_index
    created ←
        ok_or
          (sys.create_account store organizer k (sys.minimum_balance match_space) match_space
            rt.program_id)
          cpi_failed
    ok (write created k (record (created k) { contents = of_match (node_of s.tournament_key k d) }))

  -- One round of the loop.
  unfoldable pub init_match : MatchInitDescriptor → ℕ → Progress → Result Progress
  init_match d k p = do
    check_position d
    cursor ← check_seeded d p
    store ← create_match d k p.store
    byes ← if d.bye then ok_or (checked_add 16 p.byes 1) (code arithmetic_overflow) else ok p.byes
    ok (record { store = store; cursor = cursor; byes = byes })

  unfoldable pub init_matches : List MatchInitDescriptor → List ℕ → Progress → Result Progress
  init_matches [] keys p = ok p
  init_matches (d ∷ ds) [] p = ok p
  init_matches (d ∷ ds) (k ∷ keys) p = init_match d k p >>= init_matches ds keys

-- The tournament starts once every match has its account.
unfoldable pub start_if_full : ℤ → Tournament → Log → Tournament × Log
start_if_full now t log =
    if t.matches_initialized == t.total_matches
    then (
      record t { status = TournamentStatus.active; started_at = now },
      emit (tournament_started t.key t.bracket_size t.participant_count t.seed_hash now) log,
    )
    else (t, log)

-- The counters after the loop.
unfoldable pub count_matches : ℤ → ℕ → ℕ → Tournament → Log → Result (Tournament × Log)
count_matches now descriptor_count byes t log = do
  initialized ←
      ok_or (checked_add 16 t.matches_initialized (truncate 16 descriptor_count))
        (code arithmetic_overflow)
  reported ← ok_or (checked_add 16 t.matches_reported byes) (code arithmetic_overflow)
  let t' = record t { matches_initialized = initialized; matches_reported = reported }
  ok (start_if_full now t' log)

module _ (rt : Runtime) (sys : SystemProgram) (keccak : Keccak) where
  -- The matches of one chunk, in a bracket that is open.
  unfoldable pub init_chunk :
      StartContext → List MatchInitDescriptor → Tournament → Starting → Result Starting
  init_chunk c descriptors t s = do
    require (is_pending_bracket_init t.status) not_in_registration
    let vrf_mode = not (is_organizer_only t.settlement_mode)
    perm ← if vrf_mode then seed_permutation t.seed_hash t.participant_count else ok []
    let tail = drop (length descriptors) c.remaining_accounts
    p ←
        init_matches rt sys c.organizer vrf_mode
          (record {
            perm = perm;
            bracket_size = t.bracket_size;
            participant_count = t.participant_count;
            tournament_key = t.key;
            participant_tail = tail;
          })
          descriptors (take (length descriptors) c.remaining_accounts)
          (record { store = s.store; cursor = 0; byes = 0 })
    require (not vrf_mode || p.cursor == length tail) remaining_accounts_mismatch
    counted ← count_matches c.now (length descriptors) p.byes t s.log
    ok (record { tournament = counted.0; store = p.store; log = counted.1 })

  unfoldable pub start_tournament :
      StartContext → List MatchInitDescriptor → Starting → Result Starting
  start_tournament c descriptors s = do
    require (c.organizer == s.tournament.organizer) unauthorized_authority
    check_tournament rt s.tournament
    require (leb (length descriptors) (length c.remaining_accounts)) remaining_accounts_mismatch
    t ← open_bracket keccak c.slot_hashes s.tournament
    init_chunk c descriptors t s
