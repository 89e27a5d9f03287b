-- ===== src/Randomness/Sealed.antt =====
-- The seed of a bracket that the organizer does not settle alone is a value of the randomness
-- account that was bound.
use bracket_chain_programs.Prelude.{
  ℕ, ◌≡◌, refl, sym, subst, ap, ◌∙◌, ◌≢◌, ◌⊎◌, inl, inr, true, false, some, List, arith,
  Option-cases,
}
use bracket_chain_programs.Errors.{ok}
use bracket_chain_programs.State.Tournament.{Tournament, TournamentStatus, SettlementMode}
use bracket_chain_programs.Runtime.{Runtime, AccountInfo}
use bracket_chain_programs.Accounts.{check_tournament}
use bracket_chain_programs.Switchboard.{Switchboard, is_on_demand}
use bracket_chain_programs.Platform.{Keccak}
use bracket_chain_programs.Start.Seed.{open_bracket}
use bracket_chain_programs.Start.Size.{open_bracket-IsOpened}
use bracket_chain_programs.Randomness.Handler.{request_seed, reveal_seed}

-- One successful instruction on the seed. `others` is any instruction that leaves the fields of the
-- randomness and the seed alone.
pub data SeedStep (rt : Runtime) (sb : Switchboard) : Tournament → Tournament → Type 1 where
  requested :
      (organizer : ℕ) (account : AccountInfo) (slot : ℕ) (t t' : Tournament)
      → request_seed rt sb organizer account slot t ≡ ok t'
      → SeedStep rt sb t t'
  revealed :
      (account : AccountInfo) (slot : ℕ) (t t' : Tournament)
      → reveal_seed rt sb account slot t ≡ ok t'
      → SeedStep rt sb t t'
  others :
      (t t' : Tournament)
      → t'.seed_hash ≡ t.seed_hash
      → t'.seed_revealed ≡ t.seed_revealed
      → t'.vrf_randomness_account ≡ t.vrf_randomness_account
      → SeedStep rt sb t t'

pub data SeedReach (rt : Runtime) (sb : Switchboard) (t : Tournament) : Tournament → Type 1 where
  untouched : SeedReach rt sb t t
  after :
      {t' t'' : Tournament}
      → (history : SeedReach rt sb t t') → (last : SeedStep rt sb t' t'') → SeedReach rt sb t t''

module _ (rt : Runtime) (sb : Switchboard) where
  -- The step is a reveal that read the account in the slot.
  abbrev pub IsRevealOf : AccountInfo → ℕ → {t t' : Tournament} → SeedStep rt sb t t' → Type 0
  IsRevealOf account slot (requested o a s t t' h) = ⊥
  IsRevealOf account slot (revealed a s t t' h) = (a ≡ account) × (s ≡ slot)
  IsRevealOf account slot (others t t' hash done bound) = ⊥

  -- One of the steps of the history is.
  abbrev pub IsRevealedIn : AccountInfo → ℕ → {t t' : Tournament} → SeedReach rt sb t t' → Type 0
  IsRevealedIn account slot untouched = ⊥
  IsRevealedIn account slot (after r last) =
      IsRevealOf account slot last ⊎ IsRevealedIn account slot r

  -- The account is the bound one, of Switchboard's, and has the seed as its value in the slot, the
  -- one of its reveal.
  pub record IsVerified (account : AccountInfo) (slot : ℕ) (t : Tournament) : Type 0 where
    pub bound : account.key ≡ t.vrf_randomness_account
    pub on_demand : is_on_demand account.owner ≡ true
    pub randomness : sb.Randomness
    pub parsed : sb.parse_randomness account.bytes ≡ some randomness
    pub resolved : sb.reveal_slot randomness ≡ slot
    pub value : sb.get_randomness randomness slot ≡ some t.seed_hash

  pub reveal_seed-IsVerified :
      (account : AccountInfo) (slot : ℕ) (t t' : Tournament)
      → reveal_seed rt sb account slot t ≡ ok t'
      → IsVerified account slot t' × (t.seed_revealed ≡ false) × (t'.seed_revealed ≡ true)
  unfolding reveal_seed
  reveal_seed-IsVerified account slot t t' h =
      elim (Option-cases (sb.parse_randomness account.bytes)) [
        | inl unparsed ↦ absurd (ground arith)
        | inr (r, parsed) ↦ elim (Option-cases (sb.get_randomness r slot)) [
          | inl unresolved ↦ absurd (ground arith)
          | inr (value, got) ↦
              let same : t' ≡ record t { seed_hash = value; seed_revealed = true } = ground arith in
              (
                subst (IsVerified account slot) (sym same) (record {
                  bound = ground arith;
                  on_demand = ground arith;
                  randomness = r;
                  parsed = parsed;
                  resolved = sb.resolved r slot value got;
                  value = got;
                }),
                ground arith,
                ap (λ x. x.seed_revealed) same,
              )
        ]
      ]

  request_seed-unrevealed :
      (organizer : ℕ) (account : AccountInfo) (slot : ℕ) (t t' : Tournament)
      → request_seed rt sb organizer account slot t ≡ ok t'
      → (t.seed_revealed ≡ false) × (t'.seed_revealed ≡ false)
  unfolding request_seed
  request_seed-unrevealed organizer account slot t t' h =
      elim (Option-cases (sb.parse_randomness account.bytes)) [
        | inl unparsed ↦ absurd (ground arith)
        | inr (r, parsed) ↦ (ground arith, ground arith)
      ]

  IsVerified-kept :
      (account : AccountInfo) (slot : ℕ) (t t' : Tournament)
      → t'.seed_hash ≡ t.seed_hash
      → t'.vrf_randomness_account ≡ t.vrf_randomness_account
      → IsVerified account slot t
      → IsVerified account slot t'
  IsVerified-kept account slot t t' hash bound v = record {
    bound = v.bound ∙ sym bound;
    on_demand = v.on_demand;
    randomness = v.randomness;
    parsed = v.parsed;
    resolved = v.resolved;
    value = v.value ∙ ap some (sym hash);
  }

  -- The seed was verified by a reveal of the history.
  abbrev pub IsDrawnIn : {t t' : Tournament} → SeedReach rt sb t t' → Type 0
  IsDrawnIn {t' = t'} history =
      (account : AccountInfo) × (slot : ℕ) × IsRevealedIn account slot history
      × IsVerified account slot t'

  -- Either no seed is revealed yet, or it was verified.
  abbrev pub IsGuarded : {t t' : Tournament} → SeedReach rt sb t t' → Type 0
  IsGuarded {t' = t'} history = (t'.seed_revealed ≡ false) ⊎ IsDrawnIn history

  SeedStep-IsGuarded :
      {t t' t'' : Tournament} (history : SeedReach rt sb t t') (last : SeedStep rt sb t' t'')
      → IsGuarded history
      → IsGuarded (after history last)
  SeedStep-IsGuarded history (requested o a slot t t' h) g =
      inl (request_seed-unrevealed o a slot t t' h).1
  SeedStep-IsGuarded history (revealed a slot t t' h) g =
      inr (a, slot, inl (refl, refl), (reveal_seed-IsVerified a slot t t' h).0)
  SeedStep-IsGuarded history (others t t' hash done bound) (inl no_seed) = inl (done ∙ no_seed)
  SeedStep-IsGuarded history (others t t' hash done bound) (inr (a, slot, earlier, v)) =
      inr (a, slot, inr earlier, IsVerified-kept a slot t t' hash bound v)

  SeedReach-IsGuarded :
      {t t' : Tournament} (history : SeedReach rt sb t t')
      → t.seed_revealed ≡ false
      → IsGuarded history
  SeedReach-IsGuarded untouched no_seed = inl no_seed
  SeedReach-IsGuarded (after r last) no_seed =
      SeedStep-IsGuarded r last (SeedReach-IsGuarded r no_seed)

  -- The bracket of a tournament that the organizer does not settle alone is drawn from verified
  -- randomness. From a tournament without a revealed seed, through every history of requests and
  -- reveals among instructions that leave the seed alone, the first chunk of `start_tournament`
  -- passes in registration only after a reveal in the history, with the value, in the slot of that
  -- reveal, of the account that the reveal read. That account is the bound one and Switchboard's,
  -- and the bracket keeps the seed.
  pub open_bracket-IsVerified :
      (keccak : Keccak) (sysvar : List ℕ) (t t1 t2 : Tournament)
      → t.seed_revealed ≡ false
      → (history : SeedReach rt sb t t1) → t1.status ≡ TournamentStatus.registration
      → t1.settlement_mode ≢ SettlementMode.organizer_only
      → open_bracket keccak sysvar t1 ≡ ok t2
      → IsDrawnIn history × (t2.seed_hash ≡ t1.seed_hash)
  open_bracket-IsVerified keccak sysvar t t1 t2 no_seed history registering mode h =
      let o = open_bracket-IsOpened keccak sysvar t1 t2 registering h in
      drawn o.seed (SeedReach-IsGuarded history no_seed)
    where
      drawn :
          (((t1.vrf_randomness_account ≢ 0)
              × (t1.seed_revealed ≡ true)
              × (t2.seed_hash ≡ t1.seed_hash))
            ⊎ ((t1.vrf_randomness_account ≡ 0)
                × (t1.settlement_mode ≡ SettlementMode.organizer_only)))
          → IsGuarded history
          → IsDrawnIn history × (t2.seed_hash ≡ t1.seed_hash)
      drawn (inl (bound, done, same)) (inl unrevealed) = absurd (ground (arith, done, unrevealed))
      drawn (inl (bound, done, same)) (inr v) = (v, same)
      drawn (inr (unbound, alone)) g = absurd (mode alone)

  -- A reveal that succeeds would have succeeded, with the same seed, whatever slot the commitment
  -- was made in.
  pub reveal_seed_any_slot :
      (account : AccountInfo) (slot commit_slot : ℕ) (t t' : Tournament)
      → reveal_seed rt sb account slot t ≡ ok t'
      → reveal_seed rt sb account slot (record t { vrf_commit_slot = commit_slot })
        ≡ ok (record t' { vrf_commit_slot = commit_slot })
  unfolding reveal_seed check_tournament
  reveal_seed_any_slot account slot commit_slot t t' h =
      elim (Option-cases (sb.parse_randomness account.bytes)) [
        | inl unparsed ↦ absurd (ground arith)
        | inr (r, parsed) ↦ elim (Option-cases (sb.get_randomness r slot)) [
          | inl unresolved ↦ absurd (ground arith)
          | inr (value, got) ↦ ground arith
        ]
      ]
