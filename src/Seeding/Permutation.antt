-- ===== src/Seeding/Permutation.antt =====
-- `seed_permutation` succeeds, and each participant stands in the vector once.
use bracket_chain_programs.Prelude.{
  ℕ, zero, suc, ◌+◌, ◌%◌, ◌≤◌, ◌<◌, ◌≡◌, refl, ◌∙◌, ap, List, [], ◌∷◌, some, arith, leb, ltb, ◌==◌,
  if◌then◌else◌, length, get_elem?,
}
use bracket_chain_programs.Errors.{ok}
use bracket_chain_programs.Seeding.{
  range, set_elem, swap, next_u64, seed_state, shuffle, seed_permutation,
}

-- How often a number stands in a list.
abbrev pub count : ℕ → List ℕ → ℕ
count x [] = 0
count x (y ∷ ys) = (if x == y then 1 else 0) + count x ys

-- The list holds each number below `n` once, and no other.
pub record IsPermutation (perm : List ℕ) (n : ℕ) : Type 0 where
  pub size : length perm ≡ n
  pub counted : (x : ℕ) → count x perm ≡ (if ltb x n then 1 else 0)

-- The same numbers, as often.
abbrev AreAlike : List ℕ → List ℕ → Type 0
AreAlike l l' = (length l' ≡ length l) × ((x : ℕ) → count x l' ≡ count x l)

length-range : (start n : ℕ) → length (range start n) ≡ n
unfolding range
length-range start zero = refl
length-range start (suc n) = ap suc (length-range (start + 1) n)

count-range :
    (x start n : ℕ)
    → count x (range start n) ≡ (if leb start x then (if ltb x (start + n) then 1 else 0) else 0)
unfolding range
count-range x start zero = ground arith
count-range x start (suc n) = ground (arith, count-range x (start + 1) n)

pub get_elem?-total : (l : List ℕ) (i : ℕ) → i < length l → (a : ℕ) × (get_elem? l i ≡ some a)
get_elem?-total [] i h = absurd (omega arith)
get_elem?-total (x ∷ xs) zero h = (x, refl)
get_elem?-total (x ∷ xs) (suc i) h = get_elem?-total xs i (omega arith)

length-set_elem : (l : List ℕ) (i v : ℕ) → length (set_elem l i v) ≡ length l
length-set_elem [] i v = refl
length-set_elem (x ∷ xs) zero v = refl
length-set_elem (x ∷ xs) (suc i) v = ap suc (length-set_elem xs i v)

count-set_elem :
    (l : List ℕ) (i a v x : ℕ)
    → get_elem? l i ≡ some a
    → count x (set_elem l i v) + (if x == a then 1 else 0) ≡ count x l + (if x == v then 1 else 0)
count-set_elem [] i a v x h = cc
count-set_elem (y ∷ ys) zero a v x h = ground arith
count-set_elem (y ∷ ys) (suc i) a v x h = omega (arith, count-set_elem ys i a v x h)

-- Writing at `i` what stands at `j` leaves what stands at `j`.
get_elem?-set_elem :
    (l : List ℕ) (i j b : ℕ) → get_elem? l j ≡ some b → get_elem? (set_elem l i b) j ≡ some b
get_elem?-set_elem [] i j b h = h
get_elem?-set_elem (x ∷ xs) zero zero b h = refl
get_elem?-set_elem (x ∷ xs) zero (suc j) b h = h
get_elem?-set_elem (x ∷ xs) (suc i) zero b h = h
get_elem?-set_elem (x ∷ xs) (suc i) (suc j) b h = get_elem?-set_elem xs i j b h

swap-total :
    (l : List ℕ) (i j : ℕ)
    → i < length l
    → j < length l
    → (l' : List ℕ) × (swap l i j ≡ ok l') × AreAlike l l'
unfolding swap
swap-total l i j hi hj =
    let (a, at_i) = get_elem?-total l i hi in
    let (b, at_j) = get_elem?-total l j hj in
    (
      set_elem (set_elem l i b) j a,
      rw (at_i, at_j) refl,
      (
        length-set_elem (set_elem l i b) j a ∙ length-set_elem l i b,
        λ x. omega (
          arith,
          count-set_elem l i a b x at_i,
          count-set_elem (set_elem l i b) j b a x (get_elem?-set_elem l i j b at_j),
        ),
      ),
    )

shuffle-total :
    (i state : ℕ) (l : List ℕ)
    → i ≤ length l
    → (l' : List ℕ) × (shuffle i state l ≡ ok l') × AreAlike l l'
unfolding shuffle
shuffle-total zero state l h = (l, refl, (refl, λ x. refl))
shuffle-total (suc zero) state l h = (l, refl, (refl, λ x. refl))
shuffle-total (suc (suc k)) state l h =
    let drawn = next_u64 state in
    let (l1, swapped, alike) =
      swap-total l (suc k) (drawn.0 % (suc k + 1)) (omega arith) (omega arith) in
    let (l2, shuffled, alike') = shuffle-total (suc k) drawn.1 l1 (omega (arith, alike.0)) in
    (l2, rw swapped shuffled, (alike'.0 ∙ alike.0, λ x. alike'.1 x ∙ alike.1 x))

-- For every seed and every number of participants, `seed_permutation` succeeds, and the vector that
-- it returns holds the index of each participant exactly once and nothing else.
pub seed_permutation-total :
    (seed_hash : List ℕ) (n : ℕ)
    → (perm : List ℕ) × (seed_permutation seed_hash n ≡ ok perm) × IsPermutation perm n
unfolding seed_permutation
seed_permutation-total seed_hash n =
    let (perm, done, alike) =
      shuffle-total n (seed_state seed_hash) (range 0 n) (omega (arith, length-range 0 n)) in
    (
      perm,
      done,
      record {
        size = alike.0 ∙ length-range 0 n;
        counted = λ x. ground (arith, alike.1 x, count-range x 0 n);
      },
    )
