-- ===== src/Switchboard.antt =====
-- Switchboard On-Demand, which the program reads and does not implement: the accounts of a feed and
-- of a randomness, and the decimal numbers of a feed. It is a parameter of the model.
use bracket_chain_programs.Prelude.{
  ℕ, ◌≡◌, ◌≤◌, ◌+◌, leb, if◌then◌else◌, [], ◌∷◌, Bool, ◌||◌, ◌==◌, Option, some, List,
}
use bracket_chain_programs.Constants.{switchboard_on_demand_devnet, switchboard_on_demand_mainnet}

-- The number of submissions, by their slots, that are at most `max_staleness` slots old.
abbrev pub count_fresh : ℕ → ℕ → List ℕ → ℕ
count_fresh slot max_staleness [] = 0
count_fresh slot max_staleness (submitted ∷ rest) =
    (if leb slot (submitted + max_staleness) then 1 else 0) + count_fresh slot max_staleness rest

-- `parse_feed` and `get_value` are those of `PullFeedAccountData`, with the slot, the staleness
-- bound, the least number of samples and the flag for positive values; `parse_randomness` and
-- `get_randomness` are `parse` and `get_value` of `RandomnessAccountData`. The slots of a feed's
-- submissions and the slot of a reveal are read off the accounts. What is assumed: `get_value`
-- answers only if enough submissions are within the staleness bound, and a randomness has a value only in the slot of its
-- reveal.
pub record Switchboard : Type 1 where
  pub PullFeed : Type 0
  pub Randomness : Type 0
  pub Decimal : Type 0
  pub parse_feed : List ℕ → Option PullFeed
  pub queue : PullFeed → ℕ
  pub feed_hash : PullFeed → List ℕ
  pub get_value : PullFeed → ℕ → ℕ → ℕ → Bool → Option Decimal
  pub to_u64 : Decimal → Option ℕ
  pub submission_slots : PullFeed → List ℕ
  pub parse_randomness : List ℕ → Option Randomness
  pub get_randomness : Randomness → ℕ → Option (List ℕ)
  pub reveal_slot : Randomness → ℕ
  pub enough :
      (feed : PullFeed) (slot max_staleness min_samples : ℕ) (only_positive : Bool) (v : Decimal)
      → get_value feed slot max_staleness min_samples only_positive ≡ some v
      → min_samples ≤ count_fresh slot max_staleness (submission_slots feed)
  pub resolved :
      (r : Randomness) (slot : ℕ) (value : List ℕ)
      → get_randomness r slot ≡ some value
      → reveal_slot r ≡ slot

-- `*owner == SWITCHBOARD_ON_DEMAND_DEVNET || *owner == SWITCHBOARD_ON_DEMAND_MAINNET`
abbrev pub is_on_demand : ℕ → Bool
is_on_demand owner = owner == switchboard_on_demand_devnet || owner == switchboard_on_demand_mainnet
