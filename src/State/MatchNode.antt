-- ===== src/State/MatchNode.antt =====
-- programs/bracket-chain/src/state/match_node.rs, match_commitment.rs and proposal_source.rs: a node
-- of the bracket with the envelope of its pending proposal.
use bracket_chain_programs.Prelude.{ℕ, Bool, true, false, Option, List}
use bracket_chain_programs.Prelude.{ℤ}

pub data ProposalSource : Type 0 where
  no_source player oracle game_server : ProposalSource

pub record MatchCommitment : Type 0 where
  pub lobby_id : List ℕ
  pub player_a_game_id : List ℕ
  pub player_b_game_id : List ℕ
  pub expected_feed_hash : List ℕ
  pub committed_at : ℤ
  pub committed_slot : ℕ

pub data MatchStatus : Type 0 where
  pending active completed : MatchStatus

pub record MatchNode : Type 0 where
  pub key : ℕ
  pub tournament : ℕ
  pub bracket : ℕ
  pub round : ℕ
  pub match_index : ℕ
  pub player_a : ℕ
  pub player_b : ℕ
  pub winner : ℕ
  pub status : MatchStatus
  pub bye : Bool
  pub bump : ℕ
  pub proposal_source : ProposalSource
  pub proposer : ℕ
  pub proposed_winner : ℕ
  pub proposed_at : ℤ
  pub claim_deadline : ℤ
  pub disputed : Bool
  pub dispute_reason : ℕ
  pub commitment : Option MatchCommitment
  pub switchboard_feed : ℕ

-- The comparisons of a status or a source with a constant.
abbrev pub is_match_active : MatchStatus → Bool
is_match_active active = true
is_match_active _ = false

abbrev pub is_no_source : ProposalSource → Bool
is_no_source no_source = true
is_no_source _ = false

-- The discriminants of the sources, which events carry.
abbrev pub source_discriminant : ProposalSource → ℕ
source_discriminant no_source = 0
source_discriminant player = 1
source_discriminant oracle = 2
source_discriminant game_server = 3
