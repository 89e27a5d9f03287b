-- ===== src/Seeding/Coverage.antt =====
-- The first round places every participant exactly once.
use bracket_chain_programs.Prelude.{
  ℕ, zero, suc, ◌+◌, ◌-◌, ◌≤◌, ◌<◌, ◌≡◌, refl, subst, Option, none, some, List, [], ◌∷◌, arith, ltb,
  ◌==◌, if◌then◌else◌, Bool-cases, inl, inr, length, get_elem?,
}
use bracket_chain_programs.Errors.{Result, ok, ◌>>=◌}
use bracket_chain_programs.Seeding.{seed_permutation, round0_expected}
use bracket_chain_programs.Seeding.Permutation.{count, get_elem?-total, seed_permutation-total}

-- The first matches of the first round, the last one in front.
abbrev pub first_round : List ℕ → ℕ → ℕ → ℕ → Result (List (ℕ × Option ℕ))
first_round perm bracket_size n zero = ok []
first_round perm bracket_size n (suc m) = do
  entrants ← round0_expected perm m bracket_size n
  earlier ← first_round perm bracket_size n m
  ok (entrants ∷ earlier)

abbrev pub occurs : ℕ → Option ℕ → ℕ
occurs x none = 0
occurs x (some y) = if x == y then 1 else 0

-- How often a number is placed.
abbrev pub placed : ℕ → List (ℕ × Option ℕ) → ℕ
placed x [] = 0
placed x ((a, b) ∷ rest) = (if x == a then 1 else 0) + occurs x b + placed x rest

-- How often it stands below an index, and at the last places below one.
abbrev below : ℕ → List ℕ → ℕ → ℕ
below x l zero = 0
below x l (suc h) = occurs x (get_elem? l h) + below x l h

abbrev from_top : ℕ → List ℕ → ℕ → ℕ → ℕ
from_top x l top zero = 0
from_top x l top (suc h) = occurs x (get_elem? l (top - 1 - h)) + from_top x l top h

below-from_top :
    (x : ℕ) (l : List ℕ) (k h top : ℕ)
    → top ≡ k + h
    → below x l top ≡ below x l k + from_top x l top h
below-from_top x l k zero top e = let same : top ≡ k = omega arith in rw same (omega arith)
below-from_top x l k (suc h) top e =
    let at : top - 1 - h ≡ k = omega arith in
    rw at (omega (arith, below-from_top x l (suc k) h top (omega arith)))

below-cons :
    (x y : ℕ) (l : List ℕ) (h : ℕ)
    → below x (y ∷ l) (suc h) ≡ (if x == y then 1 else 0) + below x l h
below-cons x y l zero = refl
below-cons x y l (suc h) = omega (arith, below-cons x y l h)

below-all : (x : ℕ) (l : List ℕ) (h : ℕ) → length l ≤ h → below x l h ≡ count x l
below-all x [] zero le = refl
below-all x [] (suc h) le = omega (arith, below-all x [] h (omega arith))
below-all x (y ∷ l) zero le = absurd (omega arith)
below-all x (y ∷ l) (suc h) le = omega (arith, below-cons x y l h, below-all x l h (omega arith))

get_elem?-none : (l : List ℕ) (i : ℕ) → length l ≤ i → get_elem? l i ≡ none
get_elem?-none [] i h = refl
get_elem?-none (x ∷ xs) zero h = absurd (omega arith)
get_elem?-none (x ∷ xs) (suc i) h = get_elem?-none xs i (omega arith)

-- One match: rank `m` against rank `bracket_size - 1 - m`, if it is taken.
round0_expected-eq :
    (perm : List ℕ) (m bracket_size : ℕ)
    → m < length perm
    → m < bracket_size
    → (a : ℕ) × (get_elem? perm m ≡ some a)
      × (round0_expected perm m bracket_size (length perm)
          ≡ ok (a, get_elem? perm (bracket_size - 1 - m)))
unfolding round0_expected
round0_expected-eq perm m bracket_size h hb =
    let (a, at_m) = get_elem?-total perm m h in
    elim (Bool-cases (ltb (bracket_size - 1 - m) (length perm))) [
      | inl taken ↦
          let (b, at_b) = get_elem?-total perm (bracket_size - 1 - m) (ground arith) in
          (a, at_m, ground (arith, at_m, at_b))
      | inr bye ↦
          let at_b = get_elem?-none perm (bracket_size - 1 - m) (ground arith) in
          (a, at_m, ground (arith, at_m, at_b))
    ]

first_round-placed :
    (perm : List ℕ) (h bracket_size : ℕ)
    → h ≤ length perm
    → h ≤ bracket_size
    → (round : List (ℕ × Option ℕ)) × (first_round perm bracket_size (length perm) h ≡ ok round)
      × ((x : ℕ) → placed x round ≡ below x perm h + from_top x perm bracket_size h)
first_round-placed perm zero bracket_size hl hb = ([], refl, λ x. refl)
first_round-placed perm (suc h) bracket_size hl hb =
    let (a, at_h, e) = round0_expected-eq perm h bracket_size (omega arith) (omega arith) in
    let (round, done, counted) =
      first_round-placed perm h bracket_size (omega arith) (omega arith) in
    (
      (a, get_elem? perm (bracket_size - 1 - h)) ∷ round,
      rw (e, done) refl,
      λ x. rw at_h (omega (arith, counted x)),
    )

-- For every seed, with a bracket of `half + half` places for `n` participants who fill at least half
-- of it, the matches of the first round are all assigned, and each participant is placed in them
-- exactly once.
pub first_round-covers :
    (seed_hash : List ℕ) (n half : ℕ)
    → half ≤ n
    → n ≤ half + half
    → (perm : List ℕ) × (round : List (ℕ × Option ℕ)) × (seed_permutation seed_hash n ≡ ok perm)
      × (first_round perm (half + half) n half ≡ ok round)
      × ((x : ℕ) → placed x round ≡ (if ltb x n then 1 else 0))
first_round-covers seed_hash n half few many =
    let (perm, done, permutation) = seed_permutation-total seed_hash n in
    let size = permutation.size in
    let (round, assigned, counted) =
      first_round-placed perm half (half + half) (omega (arith, size)) (omega arith) in
    (
      perm,
      round,
      done,
      subst (λ k. first_round perm (half + half) k half ≡ ok round) size assigned,
      λ x. omega (
        arith,
        counted x,
        below-from_top x perm half half (half + half) refl,
        below-all x perm (half + half) (omega (arith, size)),
        permutation.counted x,
      ),
    )
