-- ===== src/Oracle/Propose.antt =====
-- propose_result_oracle.rs: the winner that the bound feed reports becomes the proposal.
use bracket_chain_programs.Prelude.{
  ℕ, false, not, Option, none, some, ◌==◌, if◌then◌else◌, ℤ, pos, checked_add_i64,
}
use bracket_chain_programs.Errors.{
  Result, ok, err, code, arithmetic_overflow, settlement_mode_mismatch, match_already_reported,
  proposal_already_exists, match_not_committed, wrong_feed_account, oracle_winner_not_in_match,
  ◌>>=◌, ◌>>◌, require, ok_or,
}
use bracket_chain_programs.State.Tournament.{Tournament, is_oracle_mode}
use bracket_chain_programs.State.MatchNode.{
  MatchNode, ProposalSource, is_match_active, is_no_source, source_discriminant,
}
use bracket_chain_programs.State.ProtocolConfig.{ProtocolConfig}
use bracket_chain_programs.Events.{Log, emit, result_proposed}
use bracket_chain_programs.Runtime.{Runtime, AccountInfo}
use bracket_chain_programs.Accounts.{check_tournament, check_match, check_protocol_config}
use bracket_chain_programs.Switchboard.{Switchboard}
use bracket_chain_programs.Proposal.Envelope.{fill_envelope}
use bracket_chain_programs.Oracle.Lobby.{is_uncommitted}

pub record OracleContext : Type 0 where
  pub relayer : ℕ
  pub tournament : Tournament
  pub match_account : MatchNode
  pub protocol_config : ProtocolConfig
  pub switchboard_feed : AccountInfo
  pub slot : ℕ
  pub now : ℤ
  pub log : Log

-- The match on the winner's index.
abbrev pub winner_at : Option ℕ → ℕ → ℕ → Result ℕ
winner_at none player_a player_b = err (code oracle_winner_not_in_match)
winner_at (some i) player_a player_b =
    if i == 0
    then ok player_a
    else if i == 1
    then ok player_b
    else err (code oracle_winner_not_in_match)

module _ (sb : Switchboard) where
  unfoldable pub resolve_oracle_winner : sb.Decimal → ℕ → ℕ → Result ℕ
  resolve_oracle_winner value player_a player_b = winner_at (sb.to_u64 value) player_a player_b

  -- The value of the feed, within the bounds of the configuration.
  unfoldable pub read_feed : OracleContext → Result sb.Decimal
  read_feed c = do
    feed ← ok_or (sb.parse_feed c.switchboard_feed.bytes) (code wrong_feed_account)
    ok_or
        (sb.get_value feed c.slot c.protocol_config.max_stale_slots
          c.protocol_config.min_oracle_samples false)
        (code oracle_winner_not_in_match)

  -- The handler, without its account constraints.
  unfoldable pub propose_oracle : OracleContext → Result (MatchNode × Log)
  propose_oracle c = do
    let m = c.match_account
    require (is_oracle_mode c.tournament.settlement_mode) settlement_mode_mismatch
    require (is_match_active m.status) match_already_reported
    require (is_no_source m.proposal_source) proposal_already_exists
    require (not (is_uncommitted m.commitment)) match_not_committed
    require (c.switchboard_feed.key == m.switchboard_feed) wrong_feed_account
    value ← read_feed c
    winner ← resolve_oracle_winner value m.player_a m.player_b
    claim_deadline ←
        ok_or (checked_add_i64 c.now (pos c.tournament.dispute_window_secs))
          (code arithmetic_overflow)
    ok (
      fill_envelope m ProposalSource.oracle c.relayer winner c.now claim_deadline,
      emit
          (result_proposed m.tournament m.bracket m.round m.match_index
            (source_discriminant ProposalSource.oracle) c.relayer winner claim_deadline c.now)
          c.log,
    )

module _ (rt : Runtime) (sb : Switchboard) where
  unfoldable pub propose_result_oracle : OracleContext → Result (MatchNode × Log)
  propose_result_oracle c = do
    check_tournament rt c.tournament
    check_match rt c.tournament c.match_account
    check_protocol_config rt c.protocol_config
    propose_oracle sb c
