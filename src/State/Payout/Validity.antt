-- ===== src/State/Payout/Validity.antt =====
-- What `PayoutPreset::validate_custom` accepts, and what the accepted presets have in common with
-- the fixed ones.
use bracket_chain_programs.Prelude.{
  ℕ, zero, suc, ◌+◌, ◌<◌, ◌^◌, ◌≡◌, refl, sym, ap, ◌↔◌, inl, inr, Bool, true, false, List, [], ◌∷◌,
  ◌++◌, arith, ◌==◌, ltb, Bool-cases, length, take, replicate, All, sum,
}
use bracket_chain_programs.Errors.{ok, invalid_custom_payout, >>=-eq-ok, require}
use bracket_chain_programs.State.Payout.{
  PayoutPreset, winner_takes_all, standard, deep, custom, basis_points, count_funded,
  placement_count, validate_slots, validate_custom,
}

-- A split as the source's comment describes it: a first run of funded slots, no gap, and the shares
-- sum to the whole.
pub record IsSplit (slots : List ℕ) : Type 0 where
  pub funded : List ℕ
  pub unfunded : ℕ
  pub shape : slots ≡ funded ++ replicate unfunded 0
  pub positive : All (λ bps. 0 < bps) funded
  pub whole : sum funded ≡ 10_000

-- After the first empty slot only empty slots pass.
validate_slots_ended :
    (slots : List ℕ) (n : ℕ) (s : Bool × ℕ)
    → validate_slots slots (true, n) ≡ ok s
    → (slots ≡ replicate (length slots) 0) × (s.1 ≡ n)
unfolding validate_slots
validate_slots_ended [] n s h = (refl, cc)
validate_slots_ended (bps ∷ rest) n s h = ground (arith, validate_slots_ended rest n s)

-- The loop passes a split only if its slots have that shape, and adds up the funded ones.
abbrev Shape : List ℕ → ℕ → ℕ → Type 0
Shape slots n total =
    (funded : List ℕ) × (unfunded : ℕ) × (slots ≡ funded ++ replicate unfunded 0)
    × All (λ bps. 0 < bps) funded
    × (total ≡ n + sum funded)

extend-Shape :
    (bps n total : ℕ) (rest : List ℕ)
    → 0 < bps
    → Shape rest (n + bps) total
    → Shape (bps ∷ rest) n total
extend-Shape bps n total rest h (funded, unfunded, shape, positive, added) =
    (bps ∷ funded, unfunded, ap (λ l. bps ∷ l) shape, (h, positive), omega arith)

validate_slots-Shape :
    (slots : List ℕ) (n : ℕ) (s : Bool × ℕ)
    → validate_slots slots (false, n) ≡ ok s
    → Shape slots n s.1
unfolding validate_slots
validate_slots-Shape [] n s h = ([], 0, refl, tt, ground arith)
validate_slots-Shape (bps ∷ rest) n s h = elim (Bool-cases (bps == 0)) [
  | inl e ↦
      let ended : (rest ≡ replicate (length rest) 0) × (s.1 ≡ n) =
        ground (arith, validate_slots_ended rest n s) in
      ([], suc (length rest), ground arith, tt, omega arith)
  | inr e ↦
      extend-Shape bps n s.1 rest (ground arith)
        (validate_slots-Shape rest (n + bps) s (ground arith))
]

-- It passes every split of that shape whose sum fits the loop's word.
validate_slots_unfunded :
    (k n : ℕ) → (b : Bool) → (e : Bool) × (validate_slots (replicate k 0) (b, n) ≡ ok (e, n))
unfolding validate_slots
validate_slots_unfunded zero n b = (b, refl)
validate_slots_unfunded (suc k) n b = validate_slots_unfunded k n true

validate_slots_total :
    (funded : List ℕ) (k n : ℕ)
    → All (λ bps. 0 < bps) funded
    → n + sum funded < 2 ^ 32
    → (e : Bool) × (validate_slots (funded ++ replicate k 0) (false, n) ≡ ok (e, n + sum funded))
unfolding validate_slots
validate_slots_total [] k n h lt =
    rw (let z : n + 0 ≡ n = omega arith in z) (validate_slots_unfunded k n false)
validate_slots_total (bps ∷ funded) k n h lt =
    let rest = validate_slots_total funded k (n + bps) h.1 (omega arith) in
    (rest.0, ground (arith, rest.1))

accepted-IsSplit : (slots : List ℕ) → validate_custom (custom slots) ≡ ok tt → IsSplit slots
unfolding validate_custom
accepted-IsSplit [] h = cc
accepted-IsSplit (bps ∷ rest) h = elim (Bool-cases (ltb 0 bps)) [
  | inl e ↦
      let (s, passed, whole) =
        >>=-eq-ok (validate_slots (bps ∷ rest) (false, 0))
          (λ s. require (s.1 == 10_000) invalid_custom_payout) (ground arith) in
      let (funded, unfunded, shape, positive, added) =
        validate_slots-Shape (bps ∷ rest) 0 s passed in
      record {
        funded = funded;
        unfunded = unfunded;
        shape = shape;
        positive = positive;
        whole = ground arith;
      }
  | inr e ↦ ground arith
]

IsSplit-accepted :
    (slots funded : List ℕ) (k : ℕ)
    → slots ≡ funded ++ replicate k 0
    → All (λ bps. 0 < bps) funded
    → sum funded ≡ 10_000
    → validate_custom (custom slots) ≡ ok tt
unfolding validate_custom
IsSplit-accepted slots [] k e h w = absurd (omega arith)
IsSplit-accepted slots (bps ∷ funded) k e h w =
    let total = validate_slots_total (bps ∷ funded) k 0 h (omega arith) in
    rw e (ground (arith, total.1))

-- `validate_custom` accepts a custom preset exactly if its slots are a run of positive shares, then
-- zeros only, and the shares sum to 10,000.
pub validate_custom_iff :
    (slots : List ℕ) → (validate_custom (custom slots) ≡ ok tt) ↔ IsSplit slots
validate_custom_iff slots = (
  accepted-IsSplit slots,
  λ p. IsSplit-accepted slots p.funded p.unfunded p.shape p.positive p.whole,
)

-- What settlement needs of a preset: the first slots, as many as are funded, hold positive shares
-- that sum to the whole.
pub record IsFunded (p : PayoutPreset) : Type 0 where
  pub positive : All (λ bps. 0 < bps) (take (placement_count p) (basis_points p))
  pub whole : sum (take (placement_count p) (basis_points p)) ≡ 10_000
  pub counted : length (take (placement_count p) (basis_points p)) ≡ placement_count p

count_funded-unfunded : (k : ℕ) → count_funded (replicate k 0) ≡ 0
unfolding count_funded
count_funded-unfunded zero = refl
count_funded-unfunded (suc k) = omega (arith, count_funded-unfunded k)

count_funded-split :
    (funded : List ℕ) (k : ℕ)
    → All (λ bps. 0 < bps) funded
    → count_funded (funded ++ replicate k 0) ≡ length funded
unfolding count_funded
count_funded-split [] k h = count_funded-unfunded k
count_funded-split (bps ∷ funded) k h = ground (arith, count_funded-split funded k h.1)

take-append {ℓ} : {A : Type ℓ} (xs ys : List A) → take (length xs) (xs ++ ys) ≡ xs
take-append [] ys = refl
take-append (x ∷ xs) ys = ap (λ l. x ∷ l) (take-append xs ys)

take-funded :
    (funded : List ℕ) (k : ℕ)
    → All (λ bps. 0 < bps) funded
    → take (count_funded (funded ++ replicate k 0)) (funded ++ replicate k 0) ≡ funded
take-funded funded k h = rw (count_funded-split funded k h) (take-append funded (replicate k 0))

IsSplit-IsFunded : (slots : List ℕ) → IsSplit slots → IsFunded (custom slots)
unfolding placement_count basis_points
IsSplit-IsFunded slots p =
    let prefix : take (count_funded slots) slots ≡ p.funded =
      rw p.shape (take-funded p.funded p.unfunded p.positive) in
    let counted : count_funded slots ≡ length p.funded =
      rw p.shape (count_funded-split p.funded p.unfunded p.positive) in
    record {
      positive = rw prefix p.positive;
      whole = rw prefix p.whole;
      counted = rw prefix (sym counted);
    }

-- Every preset that `create_tournament` lets through is funded in full from its first slot on.
pub validate_custom-IsFunded : (p : PayoutPreset) → validate_custom p ≡ ok tt → IsFunded p
unfolding placement_count basis_points count_funded
validate_custom-IsFunded winner_takes_all h = record {
  positive = omega arith;
  whole = refl;
  counted = refl;
}
validate_custom-IsFunded standard h = record {
  positive = omega arith;
  whole = refl;
  counted = refl;
}
validate_custom-IsFunded deep h = record { positive = omega arith; whole = refl; counted = refl }
validate_custom-IsFunded (custom slots) h = IsSplit-IsFunded slots ((validate_custom_iff slots).0 h)
