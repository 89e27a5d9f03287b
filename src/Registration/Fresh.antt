-- ===== src/Registration/Fresh.antt =====
-- The arguments that `create_tournament` accepts, and the tournament that it writes.
use bracket_chain_programs.Prelude.{
  ℕ, ◌≤◌, ◌≡◌, refl, ◌⊎◌, inl, inr, true, false, arith, length, ◌<ℤ◌, ℤ,
}
use bracket_chain_programs.Errors.{ok, Result-cases}
use bracket_chain_programs.State.Payout.{validate_custom, min_participants}
use bracket_chain_programs.State.Tournament.{Tournament, TournamentStatus, SupportedGame}
use bracket_chain_programs.Registration.Create.{
  CreateArgs, CreateContext, is_supported, check_args, tournament_from,
}

is_supported-named :
    (game : SupportedGame)
    → is_supported game ≡ true
    → (game ≡ SupportedGame.manual)
      ⊎ ((game ≡ SupportedGame.dota2) ⊎ (game ≡ SupportedGame.cs2_faceit))
is_supported-named SupportedGame.manual e = inl refl
is_supported-named SupportedGame.dota2 e = inr (inl refl)
is_supported-named SupportedGame.cs2_faceit e = inr (inr refl)
is_supported-named SupportedGame.valorant e = absurd (ground (arith, e))
is_supported-named SupportedGame.lo_l e = absurd (ground (arith, e))

-- The arguments are within bounds.
pub record IsBounded (a : CreateArgs) : Type 0 where
  pub name_length : length a.name ≤ 32
  pub supported :
      (a.game ≡ SupportedGame.manual)
      ⊎ ((a.game ≡ SupportedGame.dota2) ⊎ (a.game ≡ SupportedGame.cs2_faceit))
  pub at_least : 2 ≤ a.max_participants
  pub at_most : a.max_participants ≤ 128
  pub valid : validate_custom a.payout_preset ≡ ok tt
  pub payable : min_participants a.payout_preset ≤ a.max_participants

pub check_args-IsBounded :
    (a : CreateArgs) (now : ℤ)
    → check_args a now ≡ ok tt
    → IsBounded a × (now <ℤ a.registration_deadline)
unfolding check_args
check_args-IsBounded a now h = elim (Result-cases (validate_custom a.payout_preset)) [
  | inr (x, failed) ↦ absurd (ground arith)
  | inl (_, valid) ↦ (
    record {
      name_length = ground arith;
      supported = is_supported-named a.game (ground arith);
      at_least = ground arith;
      at_most = ground arith;
      valid = valid;
      payable = ground arith;
    },
    ground arith,
  )
]

module _ (c : CreateContext) (a : CreateArgs) where
  -- Registration is open, and nobody has joined, no bracket, no seed and no champion is there.
  pub record IsBlank (t : Tournament) : Type 0 where
    pub registering : t.status ≡ TournamentStatus.registration
    pub nobody : t.participant_count ≡ 0
    pub no_bracket : (t.bracket_size ≡ 0) × (t.total_matches ≡ 0)
    pub no_matches : (t.matches_initialized ≡ 0) × (t.matches_reported ≡ 0)
    pub unseeded : (t.seed_revealed ≡ false) × (t.vrf_randomness_account ≡ 0)
    pub undecided : t.champion ≡ 0
    pub deposit_due : t.organizer_deposit_refunded ≡ false

  -- The accounts and the arguments stand where they belong; the organizer is the arbitrator too.
  pub record IsNamed (t : Tournament) : Type 0 where
    pub accounts : (t.key ≡ c.tournament) × (t.vault ≡ c.vault) × (t.token_mint ≡ c.token_mint)
    pub roles : (t.organizer ≡ c.organizer) × (t.arbitrator ≡ c.organizer)
    pub amounts : (t.entry_fee ≡ a.entry_fee) × (t.organizer_deposit ≡ a.organizer_deposit)
    pub limits :
        (t.max_participants ≡ a.max_participants)
        × (t.registration_deadline ≡ a.registration_deadline)
    pub preset : t.payout_preset ≡ a.payout_preset
    pub rules :
        (t.game ≡ a.game)
        × (t.settlement_mode ≡ a.settlement_mode)
        × (t.dispute_window_secs ≡ a.dispute_window_secs)

  pub tournament_from-IsBlank :
      (bump vault_bump : ℕ) → IsBlank (tournament_from c a bump vault_bump)
  unfolding tournament_from
  tournament_from-IsBlank bump vault_bump = record {
    registering = refl;
    nobody = refl;
    no_bracket = (refl, refl);
    no_matches = (refl, refl);
    unseeded = (refl, refl);
    undecided = refl;
    deposit_due = refl;
  }

  pub tournament_from-IsNamed :
      (bump vault_bump : ℕ) → IsNamed (tournament_from c a bump vault_bump)
  unfolding tournament_from
  tournament_from-IsNamed bump vault_bump = record {
    accounts = (refl, refl, refl);
    roles = (refl, refl);
    amounts = (refl, refl);
    limits = (refl, refl);
    preset = refl;
    rules = (refl, refl, refl);
  }
