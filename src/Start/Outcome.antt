-- ===== src/Start/Outcome.antt =====
-- What a chunk of `start_tournament` has done when it succeeds.
use bracket_chain_programs.Prelude.{
  ℕ, zero, suc, ◌+◌, ◌≤◌, ◌≡◌, refl, sym, subst, ap, ◌≢◌, ◌⊎◌, inl, inr, Bool, not, List, [], ◌∷◌,
  arith, Bool-cases, ◌==◌, length, take, drop, truncate, if◌then◌else◌,
}
use bracket_chain_programs.Errors.{Result, ok, Result-cases}
use bracket_chain_programs.State.Tournament.{
  Tournament, TournamentStatus, SettlementMode, is_organizer_only,
}
use bracket_chain_programs.Runtime.{Runtime}
use bracket_chain_programs.Platform.{SystemProgram, Keccak}
use bracket_chain_programs.Seeding.{seed_permutation}
use bracket_chain_programs.Start.Seed.{open_bracket}
use bracket_chain_programs.Start.Descriptor.{MatchInitDescriptor, SeedContext}
use bracket_chain_programs.Start.Handler.{
  StartContext, Starting, init_matches, start_if_full, count_matches, init_chunk, start_tournament,
}
use bracket_chain_programs.Start.Created.{Keeps, AreCreated, count_byes, init_matches-AreCreated}

length-take : (n : ℕ) (l : List ℕ) → n ≤ length l → length (take n l) ≡ n
length-take zero l h = refl
length-take (suc n) [] h = absurd (omega arith)
length-take (suc n) (x ∷ l) h = ap suc (length-take n l (omega arith))

-- Whether the seed binds the bracket.
abbrev pub is_vrf : Tournament → Bool
is_vrf t = not (is_organizer_only t.settlement_mode)

-- What the loop of a chunk is given.
abbrev pub seed_context :
    StartContext → List MatchInitDescriptor → Tournament → List ℕ → SeedContext
seed_context c ds t perm = record {
  perm = perm;
  bracket_size = t.bracket_size;
  participant_count = t.participant_count;
  tournament_key = t.key;
  participant_tail = drop (length ds) c.remaining_accounts;
}

module _ (rt : Runtime) (sys : SystemProgram) (keccak : Keccak) (c : StartContext)
    (ds : List MatchInitDescriptor) where
  -- A chunk in the open bracket `t`: the accounts that it was given are created, one for each
  -- descriptor and seeded unless the organizer settles alone, the counters are raised by the
  -- descriptors and their byes, and the tournament starts when the counter of matches reaches the
  -- total.
  pub record IsChunk (t : Tournament) (s s' : Starting) : Type 0 where
    pub was_pending : t.status ≡ TournamentStatus.pending_bracket_init
    pub perm : List ℕ
    pub shuffled :
        (t.settlement_mode ≡ SettlementMode.organizer_only)
        ⊎ (seed_permutation t.seed_hash t.participant_count ≡ ok perm)
    pub kept : Keeps s.store s'.store
    pub created :
        AreCreated rt
          (t.settlement_mode ≡ SettlementMode.organizer_only)
          (seed_context c ds t perm)
          s'.store
          ds
          (take (length ds) c.remaining_accounts)
    pub initialized :
        s'.tournament.matches_initialized ≡ t.matches_initialized + truncate 16 (length ds)
    pub reported : s'.tournament.matches_reported ≡ t.matches_reported + count_byes ds
    pub started :
        ((s'.tournament.matches_initialized ≡ t.total_matches)
          × (s'.tournament.status ≡ TournamentStatus.active)
          × (s'.tournament.started_at ≡ c.now))
        ⊎ ((s'.tournament.matches_initialized ≢ t.total_matches)
            × (s'.tournament.status ≡ TournamentStatus.pending_bracket_init))

  count_matches-counted :
      (byes : ℕ) (t : Tournament) (s : Starting) (s' : Starting)
      → t.status ≡ TournamentStatus.pending_bracket_init
      → count_matches c.now (length ds) byes t s.log ≡ ok (s'.tournament, s'.log)
      → (s'.tournament.matches_initialized ≡ t.matches_initialized + truncate 16 (length ds))
        × (s'.tournament.matches_reported ≡ t.matches_reported + byes)
        × (((s'.tournament.matches_initialized ≡ t.total_matches)
              × (s'.tournament.status ≡ TournamentStatus.active)
              × (s'.tournament.started_at ≡ c.now))
            ⊎ ((s'.tournament.matches_initialized ≢ t.total_matches)
                × (s'.tournament.status ≡ TournamentStatus.pending_bracket_init)))
  unfolding count_matches start_if_full
  count_matches-counted byes t s s' e h =
      elim (Bool-cases (t.matches_initialized + truncate 16 (length ds) == t.total_matches)) [
        | inl full ↦ (ground arith, ground arith, inl (ground arith))
        | inr short ↦ (ground arith, ground arith, inr (ground arith))
      ]

  -- The permutation that a chunk works with.
  abbrev perm_of : Tournament → Result (List ℕ)
  perm_of t = if is_vrf t then seed_permutation t.seed_hash t.participant_count else ok []

  perm_of-shuffled :
      (t : Tournament) (perm : List ℕ)
      → perm_of t ≡ ok perm
      → (t.settlement_mode ≡ SettlementMode.organizer_only)
        ⊎ (seed_permutation t.seed_hash t.participant_count ≡ ok perm)
  perm_of-shuffled t perm h = elim (Bool-cases (is_vrf t)) [
    | inl e ↦ inr (ground (arith, e, h))
    | inr e ↦ inl (ground (arith, e))
  ]

  init_chunk-IsChunk :
      (t : Tournament) (s s' : Starting)
      → length ds ≤ length c.remaining_accounts
      → init_chunk rt sys keccak c ds t s ≡ ok s'
      → IsChunk t s s'
  unfolding init_chunk
  init_chunk-IsChunk t s s' le h = elim (Result-cases (perm_of t)) [
    | inr (x, failed) ↦ absurd (ground arith)
    | inl (perm, e) ↦
        elim (Result-cases (
          init_matches rt sys c.organizer (is_vrf t) (seed_context c ds t perm) ds
            (take (length ds) c.remaining_accounts)
            (record { store = s.store; cursor = 0; byes = 0 }))) [
              | inr (x, failed) ↦ absurd (ground arith)
              | inl (p, done) ↦
                  elim (Result-cases (count_matches c.now (length ds) p.byes t s.log)) [
                    | inr (x, failed) ↦ absurd (ground arith)
                    | inl (counted, f) ↦
                        let pending : t.status ≡ TournamentStatus.pending_bracket_init =
                          ground arith in
                        let same : s'
                            ≡ record { tournament = counted.0; store = p.store; log = counted.1 } =
                          ground arith in
                        let loop =
                          init_matches-AreCreated rt sys c.organizer (is_vrf t)
                            (t.settlement_mode ≡ SettlementMode.organizer_only)
                            (λ e. ground (arith, e)) (seed_context c ds t perm) ds
                            (take (length ds) c.remaining_accounts)
                            (record { store = s.store; cursor = 0; byes = 0 }) p
                            (sym (length-take (length ds) c.remaining_accounts le)) done in
                        let counts =
                          count_matches-counted p.byes t s
                            (record { tournament = counted.0; store = p.store; log = counted.1 })
                            pending f in
                        subst (λ r. IsChunk t s r) (sym same)
                          (record {
                            was_pending = pending;
                            perm = perm;
                            shuffled = perm_of-shuffled t perm e;
                            kept = loop.0;
                            created = loop.1;
                            initialized = counts.0;
                            reported = omega (arith, counts.1, loop.2);
                            started = counts.2;
                          })
                  ]
            ]
  ]

  pub start_tournament-IsChunk :
      (s s' : Starting)
      → start_tournament rt sys keccak c ds s ≡ ok s'
      → (c.organizer ≡ s.tournament.organizer)
        × ((t : Tournament) × (open_bracket keccak c.slot_hashes s.tournament ≡ ok t)
            × IsChunk t s s')
  unfolding start_tournament
  start_tournament-IsChunk s s' h =
      elim (Result-cases (open_bracket keccak c.slot_hashes s.tournament)) [
        | inr (x, failed) ↦ absurd (ground arith)
        | inl (t, opened) ↦
            (ground arith, (t, opened, init_chunk-IsChunk t s s' (ground arith) (ground arith)))
      ]
