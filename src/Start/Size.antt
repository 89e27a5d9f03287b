-- ===== src/Start/Size.antt =====
-- The size of the bracket that the first chunk fixes, and the seed that it asks for.
use bracket_chain_programs.Prelude.{
  ℕ, zero, suc, ◌+◌, ◌*◌, ◌^◌, ◌≤◌, ◌<◌, ◌≡◌, refl, ap, ◌∙◌, ◌==◌, ◌≢◌, ◌⊎◌, inl, inr, true, some,
  List, arith, Bool-cases, leb, Option-cases,
}
use bracket_chain_programs.Errors.{ok, ◌>>=◌, >>=-eq-ok, require, min_participants_not_met}
use bracket_chain_programs.State.Tournament.{
  Tournament, TournamentStatus, SettlementMode, is_registration,
}
use bracket_chain_programs.Platform.{Keccak}
use bracket_chain_programs.Settlement.Finalize.{max_round_of}
use bracket_chain_programs.Settlement.Finality.{pow_suc, trailing_zeros-pow}
use bracket_chain_programs.Start.Seed.{
  fallback_seed, fix_seed, doubling, next_power_of_two, size_bracket, open_bracket,
}

pow_assoc : (k p : ℕ) → 2 ^ k * (2 * p) ≡ 2 ^ suc k * p
pow_assoc k p = rw (pow_suc k) (grind arith)

-- The doubling stops at the first power that is large enough.
doubling-some :
    (fuel p n size : ℕ)
    → doubling fuel p n ≡ some size
    → (k : ℕ) × (k < fuel) × (size ≡ 2 ^ k * p) × (n ≤ size) × ((k ≡ 0) ⊎ (size < 2 * n))
unfolding doubling
doubling-some zero p n size h = cc
doubling-some (suc fuel) p n size h = elim (Bool-cases (leb n p)) [
  | inl e ↦ (zero, omega arith, ground arith, ground arith, inl refl)
  | inr e ↦
      let (k, lt, eq, le, least) = doubling-some fuel (2 * p) n size (ground arith) in
      let here : p < n = ground arith in
      (suc k, omega arith, rw (← pow_assoc k p) eq, le, inr (least_at k p n size here eq least))
]
  where
    least_at :
        (k p n size : ℕ) → p < n → size ≡ 2 ^ k * (2 * p) → (k ≡ 0) ⊎ (size < 2 * n) → size < 2 * n
    least_at k p n size here eq (inl e) = ground (arith, e)
    least_at k p n size here eq (inr lt) = lt

-- A bracket of `2 ^ rounds` places that `n` participants fill by more than half.
pub record IsSized (t : Tournament) : Type 0 where
  pub rounds : ℕ
  pub half : ℕ
  pub power : t.bracket_size ≡ 2 ^ rounds
  pub last_round : max_round_of t.bracket_size ≡ rounds
  pub halves : t.bracket_size ≡ half + half
  pub fits : t.participant_count ≤ t.bracket_size
  pub filled : half < t.participant_count
  pub matches : t.total_matches + 1 ≡ t.bracket_size

-- What the first chunk has checked and fixed.
pub record IsOpened (t t' : Tournament) : Type 0 where
  pub sized : IsSized t'
  pub pending : t'.status ≡ TournamentStatus.pending_bracket_init
  pub same_count : t'.participant_count ≡ t.participant_count
  pub same_mode : t'.settlement_mode ≡ t.settlement_mode
  pub seed :
      ((t.vrf_randomness_account ≢ 0) × (t.seed_revealed ≡ true) × (t'.seed_hash ≡ t.seed_hash))
      ⊎ ((t.vrf_randomness_account ≡ 0) × (t.settlement_mode ≡ SettlementMode.organizer_only))

size_bracket-IsSized :
    (t t' : Tournament)
    → 2 ≤ t.participant_count
    → size_bracket t ≡ ok t'
    → IsSized t'
      × (t' ≡ record t {
        bracket_size = t'.bracket_size;
        total_matches = t'.total_matches;
        status = TournamentStatus.pending_bracket_init;
      })
unfolding size_bracket next_power_of_two max_round_of
size_bracket-IsSized t t' many h = elim (Option-cases (doubling 16 1 t.participant_count)) [
  | inl e ↦ absurd (ground arith)
  | inr (size, e) ↦
      let (k, lt, eq, le, least) = doubling-some 16 1 t.participant_count size e in
      let power : size ≡ 2 ^ k = omega (arith, eq) in
      sized k size lt power le least (ground arith) (ground arith) (ground arith)
]
  where
    sized :
        (k size : ℕ)
        → k < 16
        → size ≡ 2 ^ k
        → t.participant_count ≤ size
        → (k ≡ 0) ⊎ (size < 2 * t.participant_count)
        → t'.bracket_size ≡ size
        → t'.total_matches + 1 ≡ size
        → t' ≡ record t {
          bracket_size = t'.bracket_size;
          total_matches = t'.total_matches;
          status = TournamentStatus.pending_bracket_init;
        }
        → IsSized t'
          × (t' ≡ record t {
            bracket_size = t'.bracket_size;
            total_matches = t'.total_matches;
            status = TournamentStatus.pending_bracket_init;
          })
    sized zero size lt power le least es em same = absurd (omega (arith, power))
    sized (suc k) size lt power le least es em same =
        let twice : size ≡ 2 ^ k + 2 ^ k = omega (arith, power) in
        (
          record {
            rounds = suc k;
            half = 2 ^ k;
            power = omega (arith, es, power);
            last_round = rw (es, power) (ground (arith, trailing_zeros-pow 16 (suc k) lt));
            halves = omega (arith, es, twice);
            fits = ground (arith, es, same, le);
            filled = ground (arith, same, least, twice);
            matches = omega (arith, es, em);
          },
          same,
        )

fix_seed-seeded :
    (keccak : Keccak) (sysvar : List ℕ) (t t' : Tournament)
    → fix_seed keccak sysvar t ≡ ok t'
    → (t' ≡ record t { seed_hash = t'.seed_hash })
      × (((t.vrf_randomness_account ≢ 0) × (t.seed_revealed ≡ true) × (t'.seed_hash ≡ t.seed_hash))
          ⊎ ((t.vrf_randomness_account ≡ 0) × (t.settlement_mode ≡ SettlementMode.organizer_only)))
unfolding fix_seed fallback_seed
fix_seed-seeded keccak sysvar t t' h = elim (Bool-cases (t.vrf_randomness_account == 0)) [
  | inl e ↦ (ground arith, inr (ground arith, ground arith))
  | inr e ↦ (ground arith, inl (ground arith, ground arith, ground arith))
]

open_bracket-parts :
    (keccak : Keccak) (sysvar : List ℕ) (t t' : Tournament)
    → t.status ≡ TournamentStatus.registration
    → open_bracket keccak sysvar t ≡ ok t'
    → (2 ≤ t.participant_count)
      × (t1 : Tournament) × (fix_seed keccak sysvar t ≡ ok t1)
      × (size_bracket t1 ≡ ok t')
unfolding open_bracket
open_bracket-parts keccak sysvar t t' e h =
    let (_, many, rest) =
      >>=-eq-ok (require (leb 2 t.participant_count) min_participants_not_met)
        (λ _. fix_seed keccak sysvar t >>= size_bracket)
        (rw (let r : is_registration t.status ≡ true = ap is_registration e in r) at h) in
    let (t1, fixed, sized) = >>=-eq-ok (fix_seed keccak sysvar t) size_bracket rest in
    (ground (arith, many), t1, fixed, sized)

pub open_bracket-IsOpened :
    (keccak : Keccak) (sysvar : List ℕ) (t t' : Tournament)
    → t.status ≡ TournamentStatus.registration
    → open_bracket keccak sysvar t ≡ ok t'
    → IsOpened t t'
open_bracket-IsOpened keccak sysvar t t' e h =
    let (many, t1, fixed, sizing) = open_bracket-parts keccak sysvar t t' e h in
    let (before, seed) = fix_seed-seeded keccak sysvar t t1 fixed in
    let count = ap (λ x. x.participant_count) before in
    let (sized, same) = size_bracket-IsSized t1 t' (omega (arith, count)) sizing in
    record {
      sized = sized;
      pending = ap (λ x. x.status) same;
      same_count = ap (λ x. x.participant_count) same ∙ count;
      same_mode = ap (λ x. x.settlement_mode) same ∙ ap (λ x. x.settlement_mode) before;
      seed = rw (ap (λ x. x.seed_hash) same) seed;
    }
