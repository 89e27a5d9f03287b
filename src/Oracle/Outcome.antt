-- ===== src/Oracle/Outcome.antt =====
-- What the oracle's instructions have done when they succeed.
use bracket_chain_programs.Prelude.{
  ℕ, ◌≡◌, refl, ◌≢◌, ◌⊎◌, inl, inr, false, true, Option, none, some, List, arith, Option-cases,
  ◌+ℤ◌, pos, bytes_eq, [], ◌∷◌,
}
use bracket_chain_programs.Errors.{ok, Result-cases}
use bracket_chain_programs.State.Tournament.{TournamentStatus, SettlementMode}
use bracket_chain_programs.State.MatchNode.{MatchNode, MatchStatus, MatchCommitment, ProposalSource}
use bracket_chain_programs.Events.{Log}
use bracket_chain_programs.Runtime.{Runtime}
use bracket_chain_programs.Switchboard.{Switchboard, is_on_demand}
use bracket_chain_programs.Proposal.Envelope.{fill_envelope}
use bracket_chain_programs.Oracle.Lobby.{
  CommitContext, BindContext, commit_lobby, check_commit_accounts, commit_match_lobby, check_feed,
  bind_feed, check_bind_accounts, bind_match_feed,
}
use bracket_chain_programs.Oracle.Propose.{
  OracleContext, winner_at, resolve_oracle_winner, read_feed, propose_oracle, propose_result_oracle,
}

bytes_eq-≡ : (xs ys : List ℕ) → bytes_eq xs ys ≡ true → xs ≡ ys
unfolding bytes_eq
bytes_eq-≡ [] [] h = refl
bytes_eq-≡ [] (y ∷ ys) h = absurd (ground arith)
bytes_eq-≡ (x ∷ xs) [] h = absurd (ground arith)
bytes_eq-≡ (x ∷ xs) (y ∷ ys) h = let rest = bytes_eq-≡ xs ys (ground arith) in ground arith

-- A commitment: the match was active in an active oracle tournament of the organizer's, and had
-- none.
pub record IsCommitted (c : CommitContext) (feed_hash : List ℕ) (m : MatchNode) : Type 0 where
  pub organizers : c.organizer ≡ c.tournament.organizer
  pub mode : c.tournament.settlement_mode ≡ SettlementMode.oracle
  pub tournament_active : c.tournament.status ≡ TournamentStatus.active
  pub was_active : c.match_account.status ≡ MatchStatus.active
  pub was_uncommitted : c.match_account.commitment ≡ none
  pub commitment : MatchCommitment
  pub identities :
      (commitment.player_a_game_id ≡ c.participant_a.identity_hash)
      × (commitment.player_b_game_id ≡ c.participant_b.identity_hash)
      × (commitment.expected_feed_hash ≡ feed_hash)
  pub after : m ≡ record (c.match_account) { commitment = some commitment }

pub commit_match_lobby-IsCommitted :
    (rt : Runtime) (c : CommitContext) (lobby_id feed_hash : List ℕ) (m : MatchNode) (log : Log)
    → commit_match_lobby rt c lobby_id feed_hash ≡ ok (m, log)
    → IsCommitted c feed_hash m
unfolding commit_match_lobby check_commit_accounts commit_lobby
commit_match_lobby-IsCommitted rt c lobby_id feed_hash m log h = record {
  organizers = ground arith;
  mode = ground arith;
  tournament_active = ground arith;
  was_active = ground arith;
  was_uncommitted = ground arith;
  commitment = record {
    lobby_id = lobby_id;
    player_a_game_id = c.participant_a.identity_hash;
    player_b_game_id = c.participant_b.identity_hash;
    expected_feed_hash = feed_hash;
    committed_at = c.now;
    committed_slot = c.slot;
  };
  identities = (refl, refl, refl);
  after = ground arith;
}

module _ (rt : Runtime) (sb : Switchboard) where
  -- A feed that is bound: of the oracle program, on the protocol's queue, with the hash to which the
  -- match is committed.
  pub record IsBound (c : BindContext) (m : MatchNode) : Type 0 where
    pub organizers : c.organizer ≡ c.tournament.organizer
    pub commitment : MatchCommitment
    pub committed : c.match_account.commitment ≡ some commitment
    pub on_demand : is_on_demand c.switchboard_feed.owner ≡ true
    pub feed : sb.PullFeed
    pub parsed : sb.parse_feed c.switchboard_feed.bytes ≡ some feed
    pub on_queue : sb.queue feed ≡ c.protocol_config.switchboard_queue
    pub same_hash : sb.feed_hash feed ≡ commitment.expected_feed_hash
    pub after : m ≡ record (c.match_account) { switchboard_feed = c.switchboard_feed.key }

  pub bind_match_feed-IsBound :
      (c : BindContext) (m : MatchNode) (log : Log)
      → bind_match_feed rt sb c ≡ ok (m, log)
      → IsBound c m
  unfolding bind_match_feed check_bind_accounts bind_feed check_feed
  bind_match_feed-IsBound c m log h = elim (Option-cases c.match_account.commitment) [
    | inl uncommitted ↦ absurd (ground arith)
    | inr (commitment, committed) ↦ elim (Option-cases (sb.parse_feed c.switchboard_feed.bytes)) [
      | inl unparsed ↦ absurd (ground arith)
      | inr (feed, parsed) ↦ record {
        organizers = ground arith;
        commitment = commitment;
        committed = committed;
        on_demand = ground arith;
        feed = feed;
        parsed = parsed;
        on_queue = ground arith;
        same_hash = bytes_eq-≡ _ _ (ground arith);
        after = ground arith;
      }
    ]
  ]

  -- A proposal by the oracle.
  pub record IsOracleProposal (c : OracleContext) (m : MatchNode) : Type 0 where
    pub mode : c.tournament.settlement_mode ≡ SettlementMode.oracle
    pub was_active : c.match_account.status ≡ MatchStatus.active
    pub was_empty : c.match_account.proposal_source ≡ ProposalSource.no_source
    pub was_committed : c.match_account.commitment ≢ none
    pub bound : c.switchboard_feed.key ≡ c.match_account.switchboard_feed
    pub feed : sb.PullFeed
    pub parsed : sb.parse_feed c.switchboard_feed.bytes ≡ some feed
    pub value : sb.Decimal
    pub reported :
        sb.get_value feed c.slot c.protocol_config.max_stale_slots
          c.protocol_config.min_oracle_samples false
        ≡ some value
    pub named : ℕ
    pub winner :
        ((sb.to_u64 value ≡ some 0) × (named ≡ c.match_account.player_a))
        ⊎ ((sb.to_u64 value ≡ some 1) × (named ≡ c.match_account.player_b))
    pub after :
        m
        ≡ fill_envelope c.match_account ProposalSource.oracle c.relayer named c.now
            (c.now +ℤ pos c.tournament.dispute_window_secs)

  winner_at-cases :
      (i : Option ℕ) (a b w : ℕ)
      → winner_at i a b ≡ ok w
      → ((i ≡ some 0) × (w ≡ a)) ⊎ ((i ≡ some 1) × (w ≡ b))
  winner_at-cases none a b w h = absurd (ground arith)
  winner_at-cases (some i) a b w h = ground arith

  propose_oracle-IsOracleProposal :
      (c : OracleContext) (m : MatchNode) (log : Log)
      → propose_oracle sb c ≡ ok (m, log)
      → IsOracleProposal c m
  unfolding propose_oracle read_feed resolve_oracle_winner
  propose_oracle-IsOracleProposal c m log h =
      elim (Option-cases (sb.parse_feed c.switchboard_feed.bytes)) [
        | inl unparsed ↦ absurd (ground arith)
        | inr (feed, parsed) ↦
            elim (Option-cases (
              sb.get_value feed c.slot c.protocol_config.max_stale_slots
                c.protocol_config.min_oracle_samples false)) [
                  | inl no_value ↦ absurd (ground arith)
                  | inr (value, reported) ↦
                      elim (Result-cases (
                        winner_at (sb.to_u64 value) c.match_account.player_a
                          c.match_account.player_b)) [
                            | inr (x, failed) ↦ absurd (ground arith)
                            | inl (w, won) ↦ record {
                              mode = ground arith;
                              was_active = ground arith;
                              was_empty = ground arith;
                              was_committed = λ e. ground arith;
                              bound = ground arith;
                              feed = feed;
                              parsed = parsed;
                              value = value;
                              reported = reported;
                              named = w;
                              winner =
                                  winner_at-cases (sb.to_u64 value) c.match_account.player_a
                                    c.match_account.player_b w won;
                              after = ground arith;
                            }
                          ]
                ]
      ]

  pub propose_result_oracle-IsOracleProposal :
      (c : OracleContext) (m : MatchNode) (log : Log)
      → propose_result_oracle rt sb c ≡ ok (m, log)
      → IsOracleProposal c m
  unfolding propose_result_oracle
  propose_result_oracle-IsOracleProposal c m log h =
      propose_oracle-IsOracleProposal c m log (ground arith)
