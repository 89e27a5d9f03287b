-- ===== src/Start/Created.antt =====
-- What a chunk of `start_tournament` has created: an account for each descriptor, which later
-- descriptors of the chunk do not touch.
use bracket_chain_programs.Prelude.{
  ℕ, ◌+◌, ◌<◌, ◌≡◌, refl, sym, subst, ◌⊎◌, inl, inr, Bool, false, some, List, [], ◌∷◌, ◌++◌, arith,
  Bool-cases, Option-cases, ◌==◌, if◌then◌else◌, length,
}
use bracket_chain_programs.Errors.{ok, Result-cases, >>=-eq-ok}
use bracket_chain_programs.Runtime.{Runtime}
use bracket_chain_programs.State.MatchNode.{MatchNode}
use bracket_chain_programs.Store.{Store, closed, of_match, write}
use bracket_chain_programs.Platform.{SystemProgram}
use bracket_chain_programs.Settlement.Finalize.{max_round_of}
use bracket_chain_programs.Start.Descriptor.{MatchInitDescriptor, SeedContext}
use bracket_chain_programs.Start.Node.{IsNodeOf, node_of-IsNodeOf}
use bracket_chain_programs.Start.Seeded.{
  IsPlaced, IsFed, by_bye, by_match, IsSeeded, paired, alone, second, later,
  validate_descriptor-IsSeeded,
}
use bracket_chain_programs.Start.Handler.{
  match_space, node_of, match_seeds, Progress, check_position, check_seeded, create_match,
  init_match, init_matches,
}

-- No account in use changes its owner or its contents.
abbrev pub Keeps : Store → Store → Type 0
Keeps store store' =
    (k : ℕ)
    → ((store k).contents ≡ closed)
      ⊎ (((store' k).owner ≡ (store k).owner) × ((store' k).contents ≡ (store k).contents))

Keeps-trans : (s1 s2 s3 : Store) → Keeps s1 s2 → Keeps s2 s3 → Keeps s1 s3
Keeps-trans s1 s2 s3 h h' k = ground (arith, h k, h' k)

module _ (rt : Runtime) (c : SeedContext) (store store' : Store) (kept : Keeps store store') where
  IsPlaced-kept :
      (wallet index : ℕ) → IsPlaced rt c store wallet index → IsPlaced rt c store' wallet index
  IsPlaced-kept wallet index p = record {
    account = p.account;
    participant = p.participant;
    owned = ground (arith, kept p.account, p.owned, p.stored);
    stored = ground (arith, kept p.account, p.stored);
    registered = p.registered;
    same_wallet = p.same_wallet;
    same_index = p.same_index;
  }

  IsFed-kept :
      (player parent : ℕ) → IsFed rt c store player parent → IsFed rt c store' player parent
  IsFed-kept player parent (by_bye a e ne p) = by_bye a e ne (IsPlaced-kept player a p)
  IsFed-kept player parent (by_match a b e z) = by_match a b e z

  IsSeeded-kept : (d : MatchInitDescriptor) → IsSeeded rt c store d → IsSeeded rt c store' d
  IsSeeded-kept d (paired a b r e no_bye p q) =
      paired a b r e no_bye (IsPlaced-kept d.player_a a p) (IsPlaced-kept d.player_b b q)
  IsSeeded-kept d (alone a r e is_bye p z) = alone a r e is_bye (IsPlaced-kept d.player_a a p) z
  IsSeeded-kept d (second r no_bye p q) = second r no_bye (IsFed-kept _ _ p) (IsFed-kept _ _ q)
  IsSeeded-kept d (later r no_bye p q) = later r no_bye p q

-- `Exempt` holds where the seed does not bind the bracket.
module _ (rt : Runtime) (Exempt : Type 0) (s : SeedContext) where
  -- The account at `k` was created for the descriptor.
  pub record IsCreated (store : Store) (d : MatchInitDescriptor) (k : ℕ) : Type 0 where
    pub address :
        rt.create_program_address
          (match_seeds s.tournament_key d ++ (d.bump ∷ []) ∷ [])
          rt.program_id
        ≡ some k
    pub owned : (store k).owner ≡ rt.program_id
    pub node : MatchNode
    pub stored : (store k).contents ≡ of_match node
    pub described : IsNodeOf s.tournament_key k d node
    pub in_rounds : d.round < max_round_of s.bracket_size
    pub seeded : Exempt ⊎ IsSeeded rt s store d

  binding_kept :
      (store store' : Store) (d : MatchInitDescriptor)
      → Keeps store store'
      → Exempt ⊎ IsSeeded rt s store d
      → Exempt ⊎ IsSeeded rt s store' d
  binding_kept store store' d kept (inl e) = inl e
  binding_kept store store' d kept (inr i) = inr (IsSeeded-kept rt s store store' kept d i)

  IsCreated-kept :
      (store store' : Store) (d : MatchInitDescriptor) (k : ℕ)
      → Keeps store store'
      → IsCreated store d k
      → IsCreated store' d k
  IsCreated-kept store store' d k kept i = record {
    address = i.address;
    owned = ground (arith, kept k, i.owned, i.stored);
    node = i.node;
    stored = ground (arith, kept k, i.stored);
    described = i.described;
    in_rounds = i.in_rounds;
    seeded = binding_kept store store' d kept i.seeded;
  }

  -- One account for each descriptor.
  abbrev pub AreCreated : Store → List MatchInitDescriptor → List ℕ → Type 0
  AreCreated store [] keys = Unit
  AreCreated store (d ∷ ds) [] = ⊥
  AreCreated store (d ∷ ds) (k ∷ keys) = IsCreated store d k × AreCreated store ds keys

abbrev pub count_byes : List MatchInitDescriptor → ℕ
count_byes [] = 0
count_byes (d ∷ ds) = (if d.bye then 1 else 0) + count_byes ds

module _ (rt : Runtime) (sys : SystemProgram) (organizer : ℕ) (vrf_mode : Bool) (Exempt : Type 0)
    (exempt : vrf_mode ≡ false → Exempt) (s : SeedContext) where
  create_match-Keeps :
      (d : MatchInitDescriptor) (k : ℕ) (store store' : Store)
      → create_match rt sys organizer vrf_mode s d k store ≡ ok store'
      → Keeps store store'
        × (rt.create_program_address
              (match_seeds s.tournament_key d ++ (d.bump ∷ []) ∷ [])
              rt.program_id
            ≡ some k)
        × ((store' k).owner ≡ rt.program_id)
        × ((store' k).contents ≡ of_match (node_of s.tournament_key k d))
  unfolding create_match
  create_match-Keeps d k store store' h =
      elim (Option-cases (
        rt.create_program_address (match_seeds s.tournament_key d ++ (d.bump ∷ []) ∷ [])
          rt.program_id)) [
            | inl e ↦ absurd (ground arith)
            | inr (pda, e) ↦
                elim (Option-cases (
                  sys.create_account store organizer k (sys.minimum_balance match_space) match_space
                    rt.program_id)) [
                      | inl f ↦ absurd (ground arith)
                      | inr (created, f) ↦
                          let unused =
                            sys.unused store created organizer k (sys.minimum_balance match_space)
                              match_space rt.program_id f in
                          let owned =
                            sys.owned store created organizer k (sys.minimum_balance match_space)
                              match_space rt.program_id f in
                          let same : store'
                              ≡ write created k (record (created k) {
                                contents = of_match (node_of s.tournament_key k d);
                              }) =
                            ground arith in
                          (
                            λ j. elim (Bool-cases (j == k)) [
                              | inl at_k ↦ inl (ground (arith, unused))
                              | inr apart ↦
                                  let kept =
                                    sys.kept store created organizer k
                                      (sys.minimum_balance match_space) match_space rt.program_id j
                                      f (ground arith) in
                                  inr (ground (arith, same, kept), ground (arith, same, kept))
                            ],
                            ground arith,
                            ground (arith, same, owned),
                            ground (arith, same),
                          )
                    ]
          ]

  check_seeded-IsSeeded :
      (d : MatchInitDescriptor) (p : Progress) (cursor : ℕ)
      → check_seeded rt sys organizer vrf_mode s d p ≡ ok cursor
      → Exempt ⊎ IsSeeded rt s p.store d
  unfolding check_seeded
  check_seeded-IsSeeded d p cursor h = elim (Bool-cases vrf_mode) [
    | inl e ↦ inr (validate_descriptor-IsSeeded rt s p.store d p.cursor cursor (ground arith))
    | inr e ↦ inl (exempt e)
  ]

  -- One round of the loop.
  init_match-IsCreated :
      (d : MatchInitDescriptor) (k : ℕ) (p p' : Progress)
      → init_match rt sys organizer vrf_mode s d k p ≡ ok p'
      → Keeps p.store p'.store
        × IsCreated rt Exempt s p'.store d k
        × (p'.byes ≡ (if d.bye then 1 else 0) + p.byes)
  unfolding init_match check_seeded check_position
  init_match-IsCreated d k p p' h =
      elim (Result-cases (check_seeded rt sys organizer vrf_mode s d p)) [
        | inl (cursor, passed) ↦
            elim (Result-cases (create_match rt sys organizer vrf_mode s d k p.store)) [
              | inl (store, made) ↦
                  let (keeps, address, owned, stored) = create_match-Keeps d k p.store store made in
                  let same : p'.store ≡ store = ground arith in
                  (
                    subst (Keeps p.store) (sym same) keeps,
                    record {
                      address = address;
                      owned = ground (arith, same, owned);
                      node = node_of s.tournament_key k d;
                      stored = ground (arith, same, stored);
                      described = node_of-IsNodeOf s.tournament_key k d;
                      in_rounds = ground arith;
                      seeded =
                          binding_kept rt Exempt s p.store p'.store d
                            (subst (Keeps p.store) (sym same) keeps)
                            (check_seeded-IsSeeded d p cursor passed);
                    },
                    ground arith,
                  )
              | inr (x, failed) ↦ absurd (ground arith)
            ]
        | inr (x, failed) ↦ absurd (ground arith)
      ]

  -- The whole loop.
  pub init_matches-AreCreated :
      (ds : List MatchInitDescriptor) (keys : List ℕ) (p p' : Progress)
      → length ds ≡ length keys
      → init_matches rt sys organizer vrf_mode s ds keys p ≡ ok p'
      → Keeps p.store p'.store
        × AreCreated rt Exempt s p'.store ds keys
        × (p'.byes ≡ count_byes ds + p.byes)
  unfolding init_matches
  init_matches-AreCreated [] keys p p' e h =
      let same : p ≡ p' = ground (arith, h) in
      (subst (λ q. Keeps p.store q.store) same (λ k. inr (refl, refl)), tt, ground (arith, same))
  init_matches-AreCreated (d ∷ ds) [] p p' e h = absurd (omega arith)
  init_matches-AreCreated (d ∷ ds) (k ∷ keys) p p' e h =
      let (q, made, rest) =
        >>=-eq-ok (init_match rt sys organizer vrf_mode s d k p)
          (init_matches rt sys organizer vrf_mode s ds keys) h in
      let (keeps, created, byes) = init_match-IsCreated d k p q made in
      let (keeps', later_ones, byes') =
        init_matches-AreCreated ds keys q p' (omega (arith, e)) rest in
      (
        Keeps-trans p.store q.store p'.store keeps keeps',
        (IsCreated-kept rt Exempt s q.store p'.store d k keeps' created, later_ones),
        omega (arith, byes, byes'),
      )
