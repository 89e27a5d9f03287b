-- ===== src/Settlement/Exact.antt =====
-- `split_placements` leaves no dust: it succeeds on every pool and every accepted preset, and the
-- amounts sum to the pool.
use bracket_chain_programs.Prelude.{
  ℕ, suc, ◌+◌, ◌-◌, ◌*◌, ◌/◌, ◌≤◌, ◌<◌, ◌^◌, ◌≡◌, refl, ap, List, [], ◌∷◌, arith, map, length,
  length-map, take, sum, lt→ltb,
}
use bracket_chain_programs.Errors.{ok}
use bracket_chain_programs.State.Payout.{
  PayoutPreset, basis_points, placement_count, validate_custom,
}
use bracket_chain_programs.State.Payout.Validity.{validate_custom-IsFunded}
use bracket_chain_programs.Settlement.Split.{
  share_of, floor_amounts, add_lower, absorb_remainder, split_placements,
}

-- The plain floor of a share.
abbrev pub floor_share : ℕ → ℕ → ℕ
floor_share amount bps = amount * bps / 10_000

abbrev pub floors : ℕ → List ℕ → List ℕ
floors net = map (floor_share net)

product-le : (a b : ℕ) → b ≤ 10_000 → a * b ≤ a * 10_000
product-le a b h = grind arith

pub share_of-eq : (a bps : ℕ) → a < 2 ^ 64 → bps ≤ 10_000 → share_of a bps ≡ ok (floor_share a bps)
unfolding share_of
share_of-eq a bps ha hb = ground (arith, product-le a bps hb)

floor_amounts-eq :
    (net : ℕ) (l : List ℕ) → net < 2 ^ 64 → sum l ≤ 10_000 → floor_amounts net l ≡ ok (floors net l)
unfolding floor_amounts
floor_amounts-eq net [] hn hs = refl
floor_amounts-eq net (bps ∷ rest) hn hs =
    rw (share_of-eq net bps hn (omega arith), floor_amounts-eq net rest hn (omega arith))

-- Floors of shares never exceed the share of the sum.
sum-floors : (net : ℕ) (l : List ℕ) → 10_000 * sum (floors net l) ≤ net * sum l
sum-floors net [] = omega arith
sum-floors net (bps ∷ rest) = omega (arith, sum-floors net rest)

add_lower-eq : (l : List ℕ) (acc : ℕ) → acc + sum l < 2 ^ 64 → add_lower l acc ≡ ok (acc + sum l)
unfolding add_lower
add_lower-eq [] acc h = ap ok (omega arith)
add_lower-eq (a ∷ rest) acc h = ground (arith, add_lower-eq rest (acc + a))

-- What `split_placements` returns for a pool and the funded slots of a preset.
abbrev pub exact_split : ℕ → List ℕ → List ℕ
exact_split net [] = []
exact_split net (bps ∷ rest) = (net - sum (floors net rest)) ∷ floors net rest

floors_fit :
    (net bps : ℕ) (rest : List ℕ)
    → bps + sum rest ≤ 10_000
    → sum (floors net rest) + floor_share net bps ≤ net
floors_fit net bps rest h =
    omega (arith, sum-floors net (bps ∷ rest), product-le net (bps + sum rest) h)

absorb_remainder-eq :
    (net bps : ℕ) (rest : List ℕ)
    → net < 2 ^ 64
    → bps + sum rest ≤ 10_000
    → absorb_remainder net (floors net (bps ∷ rest)) ≡ ok (exact_split net (bps ∷ rest))
unfolding absorb_remainder
absorb_remainder-eq net bps rest hn hs =
    ground (arith, floors_fit net bps rest, add_lower-eq (floors net rest) 0)

pub sum-exact_split :
    (net bps : ℕ) (rest : List ℕ)
    → bps + sum rest ≤ 10_000
    → sum (exact_split net (bps ∷ rest)) ≡ net
sum-exact_split net bps rest h = omega (arith, floors_fit net bps rest h)

pub split-eq :
    (net count : ℕ) (table slots : List ℕ)
    → net < 2 ^ 64
    → take count table ≡ slots
    → length slots ≡ count
    → sum slots ≡ 10_000
    → split_placements net table count ≡ ok (exact_split net slots)
unfolding split_placements
split-eq net count table [] hn e l h = absurd (omega arith)
split-eq net count table (bps ∷ rest) hn e l h =
    rw (e, floor_amounts-eq net (bps ∷ rest) hn (omega arith), lt→ltb 0 count (omega arith))
      (absorb_remainder-eq net bps rest hn (omega arith))

funded_slots :
    (slots : List ℕ) → sum slots ≡ 10_000 → (bps : ℕ) × (rest : List ℕ) × (slots ≡ bps ∷ rest)
funded_slots [] h = absurd (omega arith)
funded_slots (bps ∷ rest) h = (bps, rest, refl)

pub length-exact_split : (net : ℕ) (slots : List ℕ) → length (exact_split net slots) ≡ length slots
length-exact_split net [] = refl
length-exact_split net (bps ∷ rest) = ap suc (length-map rest (floor_share net))

-- For every preset that `create_tournament` accepts and every pool that a token account can hold,
-- `split_placements` succeeds with one amount for each placement: every placement below the
-- champion gets the floor of its share, the champion gets the rest, which is at least the floor of
-- the champion's share, and together the amounts are exactly the pool.
pub split_placements-exact :
    (p : PayoutPreset) (net : ℕ)
    → validate_custom p ≡ ok tt
    → net < 2 ^ 64
    → (bps : ℕ) × (rest : List ℕ) × (champion : ℕ) × (take (placement_count p) (basis_points p)
        ≡ bps ∷ rest)
      × (split_placements net (basis_points p) (placement_count p)
          ≡ ok (champion ∷ floors net rest))
      × (suc (length rest) ≡ placement_count p)
      × (champion + sum (floors net rest) ≡ net)
      × (floor_share net bps ≤ champion)
split_placements-exact p net h hn =
    let f = validate_custom-IsFunded p h in
    let (bps, rest, e) = funded_slots (take (placement_count p) (basis_points p)) f.whole in
    let w : bps + sum rest ≡ 10_000 = rw e at f.whole in
    let c : suc (length rest) ≡ placement_count p = rw e at f.counted in
    (
      bps,
      rest,
      net - sum (floors net rest),
      e,
      split-eq net (placement_count p) (basis_points p) (bps ∷ rest) hn e c w,
      c,
      sum-exact_split net bps rest (omega arith),
      omega (arith, floors_fit net bps rest (omega arith)),
    )
