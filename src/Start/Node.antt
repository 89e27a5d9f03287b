-- ===== src/Start/Node.antt =====
-- What the account of a match holds when a chunk of `start_tournament` has created it.
use bracket_chain_programs.Prelude.{
  ℕ, ◌≡◌, refl, ◌⊎◌, inl, inr, true, false, ◌≢◌, none, arith, Bool-cases, ◌==◌,
}
use bracket_chain_programs.State.MatchNode.{MatchNode, MatchStatus, ProposalSource}
use bracket_chain_programs.Start.Descriptor.{MatchInitDescriptor}
use bracket_chain_programs.Start.Handler.{node_status, node_of}

-- A match as a descriptor describes it. A bye is over at once, for its one player; any other match is
-- played as soon as both players are known. There is no proposal and no commitment yet.
pub record IsNodeOf (tournament_key k : ℕ) (d : MatchInitDescriptor) (m : MatchNode) : Type 0 where
  pub keys : (m.key ≡ k) × (m.tournament ≡ tournament_key)
  pub position : (m.bracket ≡ d.bracket) × (m.round ≡ d.round) × (m.match_index ≡ d.match_index)
  pub player_a : m.player_a ≡ d.player_a
  pub result :
      ((d.bye ≡ true)
        × (m.player_b ≡ 0)
        × (m.winner ≡ d.player_a)
        × (m.status ≡ MatchStatus.completed))
      ⊎ ((d.bye ≡ false)
          × (m.player_b ≡ d.player_b)
          × (m.winner ≡ 0)
          × (((d.player_a ≢ 0) × (d.player_b ≢ 0) × (m.status ≡ MatchStatus.active))
              ⊎ (((d.player_a ≡ 0) ⊎ (d.player_b ≡ 0)) × (m.status ≡ MatchStatus.pending))))
  pub unproposed : (m.proposal_source ≡ ProposalSource.no_source) × (m.disputed ≡ false)
  pub uncommitted : (m.commitment ≡ none) × (m.switchboard_feed ≡ 0)

pub node_of-IsNodeOf :
    (tournament_key k : ℕ) (d : MatchInitDescriptor)
    → IsNodeOf tournament_key k d (node_of tournament_key k d)
unfolding node_of node_status
node_of-IsNodeOf tournament_key k d = record {
  keys = (refl, refl);
  position = (refl, refl, refl);
  player_a = refl;
  result = elim (Bool-cases d.bye) [
    | inl bye ↦ inl (ground arith)
    | inr played ↦ elim (Bool-cases (d.player_a == 0)) [
      | inl no_a ↦ inr (ground arith)
      | inr a ↦ elim (Bool-cases (d.player_b == 0)) [
        | inl no_b ↦ inr (ground arith)
        | inr b ↦ inr (ground arith)
      ]
    ]
  ];
  unproposed = (refl, refl);
  uncommitted = (refl, refl);
}
