-- ===== src/Tests/Platform.antt =====
-- A system program and an oracle service to run the instructions with. An account can be created
-- where none is. A feed is its value in front of
-- the slots of its submissions; a randomness has
-- its slot in front.
use bracket_chain_programs.Prelude.{
  ℕ, ◌+◌, ◌≡◌, sym, ap, subst, ◌≢◌, ◌≤◌, Bool, true, false, Option, none, some, List, [], ◌∷◌, ◌++◌,
  arith, Bool-cases, inl, inr, leb, ◌==◌, if◌then◌else◌,
}
use bracket_chain_programs.Store.{Store, Contents, closed, of_participant, of_match, of_bytes}
use bracket_chain_programs.Platform.{SystemProgram, Finder, TokenCreator}
use bracket_chain_programs.Tests.Ledger.{tokens, chain, sum_seeds}
use bracket_chain_programs.Switchboard.{Switchboard, count_fresh}

abbrev is_closed : Contents → Bool
is_closed closed = true
is_closed (of_participant p) = false
is_closed (of_match m) = false
is_closed (of_bytes b) = false

unfoldable pub create_account : Store → ℕ → ℕ → ℕ → ℕ → ℕ → Option Store
create_account store from to lamports space owner =
    if is_closed (store to).contents
    then some (λ j.
      if j == to
      then record { owner = owner; lamports = lamports; contents = of_bytes [] }
      else store j)
    else none

pub create_account-unused :
    (store store' : Store) (from to lamports space owner : ℕ)
    → create_account store from to lamports space owner ≡ some store'
    → (store to).contents ≡ closed
unfolding create_account
create_account-unused store store' from to lamports space owner h = ground arith

pub create_account-owned :
    (store store' : Store) (from to lamports space owner : ℕ)
    → create_account store from to lamports space owner ≡ some store'
    → (store' to).owner ≡ owner
unfolding create_account
create_account-owned store store' from to lamports space owner h = ground arith

pub create_account-kept :
    (store store' : Store) (from to lamports space owner k : ℕ)
    → create_account store from to lamports space owner ≡ some store'
    → k ≢ to
    → ((store' k).owner ≡ (store k).owner) × ((store' k).contents ≡ (store k).contents)
unfolding create_account
create_account-kept store store' from to lamports space owner k h ne = ground arith

abbrev pub system : SystemProgram
system = record {
  id = 0;
  create_account = create_account;
  minimum_balance = λ space. 3_480 + space;
  unused = create_account-unused;
  owned = create_account-owned;
  kept = create_account-kept;
}

abbrev pub slots_of : List ℕ → List ℕ
slots_of [] = []
slots_of (v ∷ slots) = slots

unfoldable pub value_of : List ℕ → ℕ → ℕ → ℕ → Option ℕ
value_of [] slot max_staleness min_samples = none
value_of (v ∷ slots) slot max_staleness min_samples =
    if leb min_samples (count_fresh slot max_staleness slots) then some v else none

pub value_of-enough :
    (feed : List ℕ) (slot max_staleness min_samples : ℕ) (only_positive : Bool) (v : ℕ)
    → value_of feed slot max_staleness min_samples ≡ some v
    → min_samples ≤ count_fresh slot max_staleness (slots_of feed)
unfolding value_of
value_of-enough [] slot max_staleness min_samples only_positive v h = absurd (ground arith)
value_of-enough (x ∷ slots) slot max_staleness min_samples only_positive v h =
    elim (Bool-cases (leb min_samples (count_fresh slot max_staleness slots))) [
      | inl enough ↦ ground arith
      | inr few ↦ absurd (ground arith)
    ]

abbrev pub slot_of : List ℕ → ℕ
slot_of [] = 0
slot_of (s ∷ value) = s

unfoldable pub value_in : List ℕ → ℕ → Option (List ℕ)
value_in r slot = if slot_of r == slot then some r else none

pub value_in-resolved :
    (r : List ℕ) (slot : ℕ) (value : List ℕ) → value_in r slot ≡ some value → slot_of r ≡ slot
unfolding value_in
value_in-resolved r slot value h = ground arith

abbrev pub service : Switchboard
service = record {
  PullFeed = List ℕ;
  Randomness = List ℕ;
  Decimal = ℕ;
  parse_feed = λ b. some b;
  queue = λ feed. 31;
  feed_hash = λ feed. 77 ∷ [];
  get_value = λ feed slot max_staleness min_samples only_positive.
      value_of feed slot max_staleness min_samples;
  to_u64 = λ v. some v;
  submission_slots = slots_of;
  parse_randomness = λ b. some b;
  get_randomness = value_in;
  reveal_slot = slot_of;
  enough = value_of-enough;
  resolved = value_in-resolved;
}

unfoldable pub find_address : List (List ℕ) → ℕ → Option (ℕ × ℕ)
find_address seeds program = some (sum_seeds (seeds ++ (0 ∷ []) ∷ []), 0)

pub find_address-found :
    (seeds : List (List ℕ)) (program address bump : ℕ)
    → find_address seeds program ≡ some (address, bump)
    → chain.create_program_address (seeds ++ (bump ∷ []) ∷ []) program ≡ some address
unfolding find_address
find_address-found seeds program address bump h =
    let same : bump ≡ 0 = ground arith in
    let sum_is : sum_seeds (seeds ++ (0 ∷ []) ∷ []) ≡ address = ground arith in
    subst (λ b. some (sum_seeds (seeds ++ (b ∷ []) ∷ [])) ≡ some address) (sym same)
      (ap some sum_is)

abbrev pub finder : Finder chain
finder = record { find_program_address = find_address; found = find_address-found }

-- A token account without a balance, if there is none at the address.
unfoldable pub create_token : (ℕ → ℕ) → Store → ℕ → ℕ → ℕ → ℕ → Option ((ℕ → ℕ) × Store)
create_token l store payer key mint owner =
    if is_closed (store key).contents
    then some (
      λ k. if k == key then 0 else l k,
      λ j.
          if j == key then record { owner = 99; lamports = 1; contents = of_bytes [] } else store j,
    )
    else none

pub create_token-empty :
    (l l' : ℕ → ℕ) (store store' : Store) (payer key mint owner : ℕ)
    → create_token l store payer key mint owner ≡ some (l', store')
    → tokens.amount l' key ≡ 0
unfolding create_token
create_token-empty l l' store store' payer key mint owner h = ground arith

pub create_token-kept :
    (l l' : ℕ → ℕ) (store store' : Store) (payer key mint owner k : ℕ)
    → create_token l store payer key mint owner ≡ some (l', store')
    → k ≢ key
    → tokens.amount l' k ≡ tokens.amount l k
unfolding create_token
create_token-kept l l' store store' payer key mint owner k h ne = ground arith

abbrev pub creator : TokenCreator tokens
creator = record {
  create_token_account = create_token;
  empty = create_token-empty;
  kept = create_token-kept;
}
