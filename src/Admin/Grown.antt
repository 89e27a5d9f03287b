-- ===== src/Admin/Grown.antt =====
-- What the migrations have done when they succeed.
use bracket_chain_programs.Prelude.{
  ℕ, zero, suc, ◌+◌, ◌-◌, ◌≤◌, ◌<◌, ◌≡◌, refl, sym, ap, ◌∙◌, inl, inr, true, false, List, [], ◌∷◌,
  ◌++◌, arith, Bool-cases, Option-cases, ltb, leb, length, length-append, length-replicate,
  replicate, take, drop, le_number, bytes_eq,
}
use bracket_chain_programs.Constants.{protocol_config_seed}
use bracket_chain_programs.Errors.{
  BracketChainError, unauthorized_authority, invalid_tournament_account, ok, err, code,
  migration_not_needed, Result-cases,
}
use bracket_chain_programs.State.ProtocolConfig.{ProtocolConfig}
use bracket_chain_programs.Runtime.{Runtime, AccountInfo, key_at}
use bracket_chain_programs.Platform.{SystemProgram, Finder}
use bracket_chain_programs.Registration.Init.{find_bump}
use bracket_chain_programs.Registration.Create.{tournament_space}
use bracket_chain_programs.Admin.Initialize.{protocol_config_space}
use bracket_chain_programs.Admin.Migrate.{
  Resizer, top_up, grow, check_kind, migrate_protocol_config, migrate_v1_tournament,
}

take-append : (n : ℕ) (xs ys : List ℕ) → n ≤ length xs → take n (xs ++ ys) ≡ take n xs
take-append zero xs ys h = refl
take-append (suc n) [] ys h = absurd (omega arith)
take-append (suc n) (x ∷ xs) ys h = ap (λ l. x ∷ l) (take-append n xs ys (omega arith))

slice-append :
    (m n : ℕ) (xs ys : List ℕ) → m + n ≤ length xs → take n (drop m (xs ++ ys)) ≡ take n (drop m xs)
slice-append zero n xs ys h = take-append n xs ys (omega (arith, h))
slice-append (suc m) n [] ys h = absurd (omega arith)
slice-append (suc m) n (x ∷ xs) ys h = slice-append m n xs ys (omega arith)

bytes_eq-same : (a b : List ℕ) → bytes_eq a b ≡ true → a ≡ b
unfolding bytes_eq
bytes_eq-same [] [] h = refl
bytes_eq-same [] (y ∷ ys) h = absurd (ground (arith, h))
bytes_eq-same (x ∷ xs) [] h = absurd (ground (arith, h))
bytes_eq-same (x ∷ xs) (y ∷ ys) h =
    let rest = bytes_eq-same xs ys (ground (arith, h)) in
    let first : x ≡ y = ground (arith, h) in ap (λ z. z ∷ xs) first ∙ ap (λ l. y ∷ l) rest

module _ (sys : SystemProgram) (resizer : Resizer) where
  -- The account has the size, its old bytes in front and zeros behind, and the lamports for its rent.
  pub record IsGrown (ai ai' : AccountInfo) (size : ℕ) : Type 0 where
    pub was_shorter : length ai.bytes < size
    pub same_key : ai'.key ≡ ai.key
    pub same_owner : ai'.owner ≡ ai.owner
    pub filled : ai'.bytes ≡ ai.bytes ++ replicate (size - length ai.bytes) 0
    pub sized : length ai'.bytes ≡ size
    pub rent_exempt : sys.minimum_balance size ≤ ai'.lamports
    pub none_lost : ai.lamports ≤ ai'.lamports

  top_up-paid :
      (authority : ℕ) (ai ai' : AccountInfo) (size : ℕ)
      → top_up sys resizer authority ai size ≡ ok ai'
      → (ai' ≡ record ai { lamports = ai'.lamports })
        × (sys.minimum_balance size ≤ ai'.lamports)
        × (ai.lamports ≤ ai'.lamports)
  unfolding top_up
  top_up-paid authority ai ai' size h =
      elim (Bool-cases (ltb 0 (sys.minimum_balance size - ai.lamports))) [
        | inr enough ↦
            let same : ai ≡ ai' = ground arith in
            (
              sym same ∙ ap (λ n. record ai { lamports = n }) (ap (λ x. x.lamports) same),
              omega (arith, ltb-false _ enough, ap (λ x. x.lamports) same),
              omega (arith, ap (λ x. x.lamports) same),
            )
        | inl lacking ↦
            elim (Option-cases
              (resizer.transfer_lamports authority ai (sys.minimum_balance size - ai.lamports))) [
                | inl failed ↦ absurd (ground arith)
                | inr (paid, sent) ↦
                    let same : paid ≡ ai' = ground arith in
                    let e =
                      sym same
                      ∙ resizer.transferred authority ai paid
                          (sys.minimum_balance size - ai.lamports) sent in
                    let l = ap (λ x. x.lamports) e in
                    (
                      e ∙ ap (λ n. record ai { lamports = n }) (sym l),
                      omega (arith, l),
                      omega (arith, l),
                    )
              ]
      ]
    where
      ltb-false : (n : ℕ) → ltb 0 n ≡ false → n ≡ 0
      ltb-false n e = ground arith

  grow-IsGrown :
      (authority : ℕ) (ai ai' : AccountInfo) (size : ℕ)
      → grow sys resizer authority ai size ≡ ok ai'
      → IsGrown ai ai' size
  unfolding grow
  grow-IsGrown authority ai ai' size h =
      elim (Result-cases (top_up sys resizer authority ai size)) [
        | inr (x, failed) ↦ absurd (ground arith)
        | inl (paid, topped) ↦ elim (Option-cases (resizer.realloc paid size)) [
          | inl failed ↦ absurd (ground arith)
          | inr (grown, done) ↦
              let (kept, rent, more) = top_up-paid authority ai paid size topped in
              let same : grown ≡ ai' = ground arith in
              let e = sym same ∙ resizer.reallocated paid grown size done in
              let bytes : ai'.bytes ≡ ai.bytes ++ replicate (size - length ai.bytes) 0 =
                ap (λ x. x.bytes) e
                ∙ ap (λ b. b ++ replicate (size - length b) 0) (ap (λ x. x.bytes) kept) in
              let shorter : length ai.bytes < size = ground arith in
              let lamports : ai'.lamports ≡ paid.lamports = ap (λ x. x.lamports) e in
              record {
                was_shorter = shorter;
                same_key = ap (λ x. x.key) e ∙ ap (λ x. x.key) kept;
                same_owner = ap (λ x. x.owner) e ∙ ap (λ x. x.owner) kept;
                filled = bytes;
                sized =
                    ap length bytes
                    ∙ length-append ai.bytes (replicate (size - length ai.bytes) 0)
                    ∙ omega (arith, length-replicate {A = ℕ} (size - length ai.bytes) 0, shorter);
                rent_exempt = omega (arith, rent, lamports);
                none_lost = omega (arith, more, lamports);
              }
        ]
      ]

  -- What a handler reads of an account before it grows is there afterwards.
  grown-take :
      (ai ai' : AccountInfo) (size n : ℕ)
      → IsGrown ai ai' size
      → n ≤ length ai.bytes
      → take n ai'.bytes ≡ take n ai.bytes
  grown-take ai ai' size n g h =
      ap (take n) g.filled ∙ take-append n ai.bytes (replicate (size - length ai.bytes) 0) h

  grow_again :
      (authority : ℕ) (ai ai' : AccountInfo) (size : ℕ)
      → IsGrown ai ai' size
      → grow sys resizer authority ai' size ≡ err (code migration_not_needed)
  unfolding grow
  grow_again authority ai ai' size g = ground (arith, g.sized)

  check_kind-kept :
      (program_id : ℕ) (ai ai' : AccountInfo) (discriminator : List ℕ) (least size : ℕ)
      (failure : BracketChainError)
      → IsGrown ai ai' size
      → 8 ≤ least
      → check_kind sys resizer program_id ai discriminator least failure ≡ ok tt
      → check_kind sys resizer program_id ai' discriminator least failure ≡ ok tt
  unfolding check_kind
  check_kind-kept program_id ai ai' discriminator least size failure g enough h =
      let long : least ≤ length ai.bytes = ground arith in
      let same = grown-take ai ai' size 8 g (omega (arith, long, enough)) in
      let discriminated : bytes_eq (take 8 ai'.bytes) discriminator
          ≡ bytes_eq (take 8 ai.bytes) discriminator =
        ap (λ b. bytes_eq b discriminator) same in
      let owner : ai'.owner ≡ ai.owner = g.same_owner in
      let longer : leb least (length ai'.bytes) ≡ true =
        ground (arith, g.sized, long, g.was_shorter) in
      ground (arith, h, discriminated, owner, longer)

  check_kind-read :
      (program_id : ℕ) (ai : AccountInfo) (discriminator : List ℕ) (least : ℕ)
      (failure : BracketChainError)
      → check_kind sys resizer program_id ai discriminator least failure ≡ ok tt
      → (ai.owner ≡ program_id) × (least ≤ length ai.bytes)
  unfolding check_kind
  check_kind-read program_id ai discriminator least failure h = (ground arith, ground arith)

  check_kind-discriminator :
      (program_id : ℕ) (ai : AccountInfo) (discriminator : List ℕ) (least : ℕ)
      (failure : BracketChainError)
      → check_kind sys resizer program_id ai discriminator least failure ≡ ok tt
      → take 8 ai.bytes ≡ discriminator
  unfolding check_kind
  check_kind-discriminator program_id ai discriminator least failure h =
      bytes_eq-same (take 8 ai.bytes) discriminator (ground arith)

  -- `migrate_protocol_config` that succeeds was called by the authority that the account names, on
  -- an account of the program; it adds zeros to the account's bytes up to the size of the present
  -- layout, pays the rent for it, and keeps its key, its owner and its lamports. The same call on the
  -- account that it leaves fails with `MigrationNotNeeded`.
  pub migrate_protocol_config-IsGrown :
      (rt : Runtime) (finder : Finder rt) (authority : ℕ) (ai ai' : AccountInfo)
      → migrate_protocol_config sys resizer rt finder authority ai ≡ ok ai'
      → (ai.owner ≡ rt.program_id)
        × (key_at ai 8 ≡ authority)
        × IsGrown ai ai' 339
        × (migrate_protocol_config sys resizer rt finder authority ai'
            ≡ err (code migration_not_needed))
  unfolding migrate_protocol_config
  migrate_protocol_config-IsGrown rt finder authority ai ai' h =
      elim (Result-cases (find_bump rt finder (protocol_config_seed ∷ []) ai.key)) [
        | inr (x, failed) ↦ absurd (ground arith)
        | inl (bump, found) ↦
            let checked : check_kind sys resizer rt.program_id ai resizer.config_discriminator 40
                  unauthorized_authority
                ≡ ok tt =
              ground arith in
            let named : key_at ai 8 ≡ authority = ground arith in
            let g = grow-IsGrown authority ai ai' protocol_config_space (ground arith) in
            let (owned, long) =
              check_kind-read rt.program_id ai resizer.config_discriminator 40
                unauthorized_authority checked in
            let still_named : key_at ai' 8 ≡ key_at ai 8 = ap le_number (
              ap (λ b. take 32 (drop 8 b)) g.filled
              ∙ slice-append 8 32 ai.bytes (replicate (339 - length ai.bytes) 0) long) in
            let again =
              check_kind-kept rt.program_id ai ai' resizer.config_discriminator 40 339
                unauthorized_authority g (omega arith) checked in
            let found_again : find_bump rt finder (protocol_config_seed ∷ []) ai'.key ≡ ok bump =
              ap (find_bump rt finder (protocol_config_seed ∷ [])) g.same_key ∙ found in
            (
              owned,
              named,
              g,
              ground (
                arith,
                found_again,
                again,
                still_named,
                named,
                grow_again authority ai ai' protocol_config_space g,
              ),
            )
      ]

  -- `migrate_v1_tournament` that succeeds was called by the authority of the protocol, on an account
  -- of the program with the discriminator of a tournament; it adds zeros to the account's bytes up
  -- to the size of the present layout, pays the rent for it, and keeps its key, its owner and its
  -- lamports. The same call on the account that it leaves fails with `MigrationNotNeeded`.
  pub migrate_v1_tournament-IsGrown :
      (rt : Runtime) (authority : ℕ) (cfg : ProtocolConfig) (ai ai' : AccountInfo)
      → migrate_v1_tournament sys resizer rt authority cfg ai ≡ ok ai'
      → (cfg.authority ≡ authority)
        × (ai.owner ≡ rt.program_id)
        × (take 8 ai.bytes ≡ resizer.tournament_discriminator)
        × IsGrown ai ai' 364
        × (migrate_v1_tournament sys resizer rt authority cfg ai' ≡ err (code migration_not_needed))
  unfolding migrate_v1_tournament
  migrate_v1_tournament-IsGrown rt authority cfg ai ai' h =
      let checked : check_kind sys resizer rt.program_id ai resizer.tournament_discriminator 8
            invalid_tournament_account
          ≡ ok tt =
        ground arith in
      let g = grow-IsGrown authority ai ai' tournament_space (ground arith) in
      let (owned, long) =
        check_kind-read rt.program_id ai resizer.tournament_discriminator 8
          invalid_tournament_account checked in
      let again =
        check_kind-kept rt.program_id ai ai' resizer.tournament_discriminator 8 364
          invalid_tournament_account g (omega arith) checked in
      (
        ground arith,
        owned,
        check_kind-discriminator rt.program_id ai resizer.tournament_discriminator 8
            invalid_tournament_account checked,
        g,
        ground (arith, h, again, grow_again authority ai ai' tournament_space g),
      )
