-- ===== src/Events.antt =====
-- programs/bracket-chain/src/events.rs: what instructions write to the log. A constructor takes the
-- fields of the source's struct in their order; `emit` stamps the first one, the version.
use bracket_chain_programs.Prelude.{ℕ, Bool, List, [], ◌∷◌, ◌++◌}
use bracket_chain_programs.Prelude.{ℤ}
use bracket_chain_programs.Constants.{event_version_v1}

pub record PlacementPayout : Type 0 where
  pub place : ℕ
  pub recipient : ℕ
  pub amount : ℕ

pub data Event : Type 0 where
  tournament_created :
      (tournament organizer token_mint entry_fee organizer_deposit max_participants : ℕ)
      → (payout_preset : ℕ) → (registration_deadline : ℤ) → (name : List ℕ) → Event
  participant_registered : (tournament wallet participant_index : ℕ) → Event
  tournament_started :
      (tournament bracket_size participant_count : ℕ)
      → (seed_hash : List ℕ) → (started_at : ℤ) → Event
  match_reported : (tournament bracket round match_index winner : ℕ) → (reported_at : ℤ) → Event
  tournament_completed :
      (tournament champion gross_pool fee_amount net_pool : ℕ)
      → (completed_at : ℤ) → (placement_payouts : List PlacementPayout) → (treasury_recipient : ℕ)
      → Event
  tournament_cancelled : (tournament authority : ℕ) → (cancelled_at : ℤ) → Event
  refund_issued : (tournament wallet amount : ℕ) → Event
  result_proposed :
      (tournament bracket round match_index source proposer proposed_winner : ℕ)
      → (claim_deadline proposed_at : ℤ) → Event
  result_disputed :
      (tournament bracket round match_index disputer dispute_reason : ℕ)
      → (force_claim_deadline disputed_at : ℤ) → Event
  result_claimed :
      (tournament bracket round match_index winner : ℕ) → (forced : Bool) → (claimed_at : ℤ) → Event
  dispute_resolved :
      (tournament bracket round match_index arbitrator winner : ℕ) → (resolved_at : ℤ) → Event
  match_lobby_committed :
      (tournament bracket round match_index : ℕ) → (lobby_id : List ℕ) → (committed_at : ℤ) → Event
  match_feed_bound : (tournament bracket round match_index switchboard_feed : ℕ) → Event
  tournament_partially_cancelled : (tournament authority : ℕ) → (cancelled_at : ℤ) → Event
  tournament_closed : (tournament accounts_closed : ℕ) → (root_closed : Bool) → Event
  final_settled :
      (tournament bracket round match_index arbitrator winner : ℕ) → (settled_at : ℤ) → Event

pub record Emitted : Type 0 where
  pub event_version : ℕ
  pub event : Event

-- The log of a transaction, the oldest event first.
abbrev pub Log : Type 0
Log = List Emitted

abbrev pub emit : Event → Log → Log
emit e log = log ++ record { event_version = event_version_v1; event = e } ∷ []
