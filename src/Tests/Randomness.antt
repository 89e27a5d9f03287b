-- ===== src/Tests/Randomness.antt =====
-- The theorems on the seed: the organizer binds a randomness account in slot 70, whose value is
-- revealed in the same slot.
use bracket_chain_programs.Prelude.{◌≡◌, refl, true, [], ◌∷◌, arith}
use bracket_chain_programs.Errors.{Result, ok, err}
use bracket_chain_programs.Constants.{switchboard_on_demand_devnet}
use bracket_chain_programs.State.Payout.{winner_takes_all}
use bracket_chain_programs.State.Tournament.{Tournament, TournamentStatus, SettlementMode}
use bracket_chain_programs.Runtime.{AccountInfo, le_bytes}
use bracket_chain_programs.Accounts.{check_tournament}
use bracket_chain_programs.Start.Seed.{
  fallback_seed, fix_seed, doubling, next_power_of_two, size_bracket, open_bracket,
}
use bracket_chain_programs.Randomness.Handler.{request_seed, reveal_seed}
use bracket_chain_programs.Randomness.Sealed.{
  requested, revealed, SeedReach, untouched, after, IsDrawnIn, open_bracket-IsVerified,
  reveal_seed_any_slot,
}
use bracket_chain_programs.Tests.Ledger.{chain}
use bracket_chain_programs.Tests.Platform.{service, value_in}
use bracket_chain_programs.Tests.Bracket.{organizer, tournament_of}

abbrev unseeded : Tournament
unseeded = record (tournament_of winner_takes_all SettlementMode.player_reported 2) {
  status = TournamentStatus.registration;
  bracket_size = 0;
  total_matches = 0;
  matches_initialized = 0;
}

abbrev account : AccountInfo
account = record {
  key = 51;
  owner = switchboard_on_demand_devnet;
  lamports = 0;
  bytes = 70 ∷ 4 ∷ [];
}

abbrev tournament_or : Tournament → Result Tournament → Tournament
tournament_or t (ok t') = t'
tournament_or t (err e) = t

abbrev bound : Tournament
bound = record unseeded { vrf_randomness_account = 51; vrf_commit_slot = 70 }

abbrev seeded : Tournament
seeded = record bound { seed_hash = 70 ∷ 4 ∷ []; seed_revealed = true }

seed_requested : request_seed chain service organizer account 70 unseeded ≡ ok bound
unfolding request_seed check_tournament le_bytes
seed_requested = refl

seed_revealed : reveal_seed chain service account 70 bound ≡ ok seeded
unfolding reveal_seed check_tournament le_bytes value_in
seed_revealed = refl

history : SeedReach chain service unseeded seeded
history =
    after (after untouched (requested organizer account 70 unseeded bound seed_requested))
      (revealed account 70 bound seeded seed_revealed)

abbrev opened : Tournament
opened = tournament_or seeded (open_bracket (λ chunks. []) [] seeded)

seeded_opened : open_bracket (λ chunks. []) [] seeded ≡ ok opened
unfolding open_bracket fix_seed fallback_seed size_bracket next_power_of_two doubling
seeded_opened = refl

open_bracket-IsVerified_example :
    IsDrawnIn chain service history × (opened.seed_hash ≡ seeded.seed_hash)
open_bracket-IsVerified_example =
    open_bracket-IsVerified chain service (λ chunks. []) [] unseeded seeded opened refl history refl
      (λ e. ground arith) seeded_opened

reveal_seed_any_slot_example :
    reveal_seed chain service account 70 (record bound { vrf_commit_slot = 9_999 })
    ≡ ok (record seeded { vrf_commit_slot = 9_999 })
reveal_seed_any_slot_example =
    reveal_seed_any_slot chain service account 70 9_999 bound seeded seed_revealed
