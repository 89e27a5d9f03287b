-- ===== src/Closing/Swept.antt =====
-- What the loop of `close_tournament` does to the accounts that it is given.
use bracket_chain_programs.Prelude.{
  ℕ, ◌+◌, ◌≡◌, refl, sym, ap, ◌∙◌, ◌≢◌, ◌⊎◌, inl, inr, some, List, [], ◌∷◌, arith, Bool-cases,
  Option-cases, All, IsDistinct, ◌==◌,
}
use bracket_chain_programs.Errors.{ok, Result-cases, >>=-eq-ok}
use bracket_chain_programs.Runtime.{Runtime}
use bracket_chain_programs.Store.{Store, write, embedded_key}
use bracket_chain_programs.Platform.{SystemProgram}
use bracket_chain_programs.Closing.Handler.{
  release, close_account_info, close_child, close_children,
}

-- The lamports that accounts hold together.
abbrev pub lamports_of : Store → List ℕ → ℕ
lamports_of store [] = 0
lamports_of store (k ∷ ks) = (store k).lamports + lamports_of store ks

module _ (rt : Runtime) (sys : SystemProgram) (tournament_key organizer : ℕ) where
  -- The account may be closed: it is empty, or a record of the tournament that the program owns.
  abbrev pub MayClose : Store → ℕ → Type 0
  MayClose store k =
      ((store k).lamports ≡ 0)
      ⊎ (((store k).owner ≡ rt.program_id)
          × (embedded_key (store k).contents ≡ some tournament_key))

  -- The account is empty, and has been given back to the system program if it was not empty before.
  abbrev pub IsEmptied : Store → Store → ℕ → Type 0
  IsEmptied store store' k =
      ((store' k).lamports ≡ 0) × (((store k).lamports ≡ 0) ⊎ ((store' k).owner ≡ sys.id))

  -- An account that was closed in a round of the loop.
  pub record IsClosed (store store' : Store) (k : ℕ) : Type 0 where
    pub funded : (store k).lamports ≢ 0
    pub owned : (store k).owner ≡ rt.program_id
    pub child : embedded_key (store k).contents ≡ some tournament_key
    pub store_after :
        store'
        ≡ release sys k (
            write store organizer (record (store organizer) {
              lamports = (store organizer).lamports + (store k).lamports;
            }))

  close_account_info-after :
      (k : ℕ) (store store' : Store)
      → close_account_info sys organizer k store ≡ ok store'
      → store'
        ≡ release sys k (
            write store organizer (record (store organizer) {
              lamports = (store organizer).lamports + (store k).lamports;
            }))
  unfolding close_account_info
  close_account_info-after k store store' h = ground arith

  pub close_child-cases :
      (k : ℕ) (store store' : Store) (n n' : ℕ)
      → close_child rt sys tournament_key organizer k (store, n) ≡ ok (store', n')
      → (((store k).lamports ≡ 0) × (store' ≡ store)) ⊎ IsClosed store store' k
  unfolding close_child
  close_child-cases k store store' n n' h = elim (Bool-cases ((store k).lamports == 0)) [
    | inl empty ↦ inl (ground arith)
    | inr funded ↦ elim (Option-cases (embedded_key (store k).contents)) [
      | inl no_key ↦ absurd (ground arith)
      | inr (embedded, found) ↦ elim (Result-cases (close_account_info sys organizer k store)) [
        | inr (x, failed) ↦ absurd (ground arith)
        | inl (after, e) ↦ inr (record {
          funded = ground arith;
          owned = ground arith;
          child = ground arith;
          store_after = close_account_info-after k store store' (ground arith);
        })
      ]
    ]
  ]

  -- One round of the loop, whether the account was closed or empty.
  pub record IsRound (store store' : Store) (k : ℕ) : Type 0 where
    pub allowed : MayClose store k
    pub emptied : IsEmptied store store' k
    pub credited : (store' organizer).lamports ≡ (store organizer).lamports + (store k).lamports
    pub same_owner : (store' organizer).owner ≡ (store organizer).owner
    pub others : (j : ℕ) → j ≢ k → j ≢ organizer → store' j ≡ store j

  pub close_child-IsRound :
      (k : ℕ) (store store' : Store) (n n' : ℕ)
      → organizer ≢ k
      → close_child rt sys tournament_key organizer k (store, n) ≡ ok (store', n')
      → IsRound store store' k
  close_child-IsRound k store store' n n' ne h = round (close_child-cases k store store' n n' h)
    where
      round :
          ((((store k).lamports ≡ 0) × (store' ≡ store)) ⊎ IsClosed store store' k)
          → IsRound store store' k
      round (inl (empty, same)) = record {
        allowed = inl empty;
        emptied = (ground (arith, same, empty), inl empty);
        credited = ground (arith, same, empty);
        same_owner = ap (λ s. (s organizer).owner) same;
        others = λ j ne_k ne_organizer. ap (λ s. s j) same;
      }
      round (inr c) = record {
        allowed = inr (c.owned, c.child);
        emptied = (ground (arith, c.store_after), inr (ground (arith, c.store_after)));
        credited = ground (arith, c.store_after, ne);
        same_owner = ground (arith, c.store_after, ne);
        others = λ j ne_k ne_organizer. ground (arith, c.store_after, ne_k, ne_organizer);
      }

  -- The accounts that the loop was given are empty, the organizer has what they held, and no other
  -- account has changed.
  pub record IsSwept (store store' : Store) (ks : List ℕ) : Type 0 where
    pub allowed : All (MayClose store) ks
    pub emptied : All (IsEmptied store store') ks
    pub credited : (store' organizer).lamports ≡ (store organizer).lamports + lamports_of store ks
    pub same_owner : (store' organizer).owner ≡ (store organizer).owner
    pub others : (j : ℕ) → All (λ k. j ≢ k) (organizer ∷ ks) → store' j ≡ store j

  module _ (store s1 store' : Store) (k : ℕ) (r : IsRound store s1 k) where
    -- A round does not touch the accounts of the rest of the list.
    round-apart :
        (ks : List ℕ)
        → All (λ j. k ≢ j) ks
        → All (λ j. organizer ≢ j) ks
        → (lamports_of s1 ks ≡ lamports_of store ks)
          × (All (MayClose s1) ks → All (MayClose store) ks)
          × (All (IsEmptied s1 store') ks → All (IsEmptied store store') ks)
    round-apart [] apart beside = (refl, λ all. tt, λ all. tt)
    round-apart (j ∷ ks) apart beside =
        let same = r.others j (λ e. apart.0 (sym e)) (λ e. beside.0 (sym e)) in
        let (rest, allowed, emptied) = round-apart ks apart.1 beside.1 in
        (
          ground (arith, same, rest),
          λ all. (ground (arith, same, all.0), allowed all.1),
          λ all. (ground (arith, same, all.0), emptied all.1),
        )

    IsSwept-cons :
        (ks : List ℕ)
        → organizer ≢ k
        → All (λ j. k ≢ j) ks
        → All (λ j. organizer ≢ j) ks
        → IsSwept s1 store' ks
        → IsSwept store store' (k ∷ ks)
    IsSwept-cons ks ne apart beside w =
        let (sum, allowed, emptied) = round-apart ks apart beside in
        record {
          allowed = (r.allowed, allowed w.allowed);
          emptied =
              (ground (arith, w.others k ((λ e. ne (sym e)), apart), r.emptied), emptied w.emptied);
          credited = omega (arith, w.credited, r.credited, sum);
          same_owner = w.same_owner ∙ r.same_owner;
          others = λ j out. w.others j (out.0, out.1.1) ∙ r.others j out.1.0 out.0;
        }

  pub close_children-IsSwept :
      (ks : List ℕ) (store store' : Store) (n n' : ℕ)
      → IsDistinct (organizer ∷ ks)
      → close_children rt sys tournament_key organizer ks (store, n) ≡ ok (store', n')
      → IsSwept store store' ks
  unfolding close_children
  close_children-IsSwept [] store store' n n' d h = record {
    allowed = tt;
    emptied = tt;
    credited = ground arith;
    same_owner = ground (arith, h);
    others = λ j out. ground (arith, h);
  }
  close_children-IsSwept (k ∷ ks) store store' n n' d h =
      let ((s1, n1), first, later) =
        >>=-eq-ok (close_child rt sys tournament_key organizer k (store, n))
          (close_children rt sys tournament_key organizer ks) h in
      IsSwept-cons store s1 store' k (close_child-IsRound k store s1 n n1 d.0.0 first) ks d.0.0
        d.1.0 d.0.1 (close_children-IsSwept ks s1 store' n1 n' (d.0.1, d.1.1) later)

  -- A second run finds nothing to close.
  pub close_children-again :
      (ks : List ℕ) (before store : Store) (n : ℕ)
      → All (IsEmptied before store) ks
      → close_children rt sys tournament_key organizer ks (store, n) ≡ ok (store, n)
  unfolding close_children close_child
  close_children-again [] before store n h = refl
  close_children-again (k ∷ ks) before store n h =
      let rest = close_children-again ks before store n h.1 in ground (arith, h.0.0, rest)
