-- ===== src/Oracle/Lobby.antt =====
-- commit_match_lobby.rs and bind_match_feed.rs. Each reads the tournament and writes the match.
use bracket_chain_programs.Prelude.{
  ℕ, Bool, Option, none, some, true, false, List, ◌==◌, ℤ, bytes_eq,
}
use bracket_chain_programs.Errors.{
  Result, ok, code, unauthorized_authority, settlement_mode_mismatch, not_active,
  match_already_reported, match_already_committed, match_not_committed, wrong_feed_account, ◌>>=◌,
  ◌>>◌, require, ok_or,
}
use bracket_chain_programs.State.Tournament.{Tournament, is_oracle_mode, is_active}
use bracket_chain_programs.State.MatchNode.{MatchNode, MatchCommitment, is_match_active}
use bracket_chain_programs.State.Participant.{Participant}
use bracket_chain_programs.State.ProtocolConfig.{ProtocolConfig}
use bracket_chain_programs.Events.{Log, emit, match_lobby_committed, match_feed_bound}
use bracket_chain_programs.Runtime.{Runtime, AccountInfo}
use bracket_chain_programs.Accounts.{
  check_tournament, check_match, check_participant, check_protocol_config,
}
use bracket_chain_programs.Switchboard.{Switchboard, is_on_demand}

pub record CommitContext : Type 0 where
  pub organizer : ℕ
  pub tournament : Tournament
  pub match_account : MatchNode
  pub participant_a : Participant
  pub participant_b : Participant
  pub now : ℤ
  pub slot : ℕ
  pub log : Log

pub record BindContext : Type 0 where
  pub organizer : ℕ
  pub tournament : Tournament
  pub match_account : MatchNode
  pub protocol_config : ProtocolConfig
  pub switchboard_feed : AccountInfo
  pub log : Log

abbrev pub is_uncommitted : Option MatchCommitment → Bool
is_uncommitted none = true
is_uncommitted (some commitment) = false

-- The handler of commit_match_lobby.rs, without its account constraints.
unfoldable pub commit_lobby : CommitContext → List ℕ → List ℕ → Result (MatchNode × Log)
commit_lobby c lobby_id expected_feed_hash = do
  let m = c.match_account
  require (is_oracle_mode c.tournament.settlement_mode) settlement_mode_mismatch
  require (is_active c.tournament.status) not_active
  require (is_match_active m.status) match_already_reported
  require (is_uncommitted m.commitment) match_already_committed
  ok (
    record m {
      commitment = some (record {
        lobby_id = lobby_id;
        player_a_game_id = c.participant_a.identity_hash;
        player_b_game_id = c.participant_b.identity_hash;
        expected_feed_hash = expected_feed_hash;
        committed_at = c.now;
        committed_slot = c.slot;
      });
    },
    emit (match_lobby_committed m.tournament m.bracket m.round m.match_index lobby_id c.now) c.log,
  )

module _ (sb : Switchboard) where
  -- The checks on a parsed feed.
  unfoldable pub check_feed : sb.PullFeed → ProtocolConfig → MatchCommitment → Result (Unit {0})
  check_feed feed config commitment = do
    require (sb.queue feed == config.switchboard_queue) wrong_feed_account
    require (bytes_eq (sb.feed_hash feed) commitment.expected_feed_hash) wrong_feed_account

  -- The handler of bind_match_feed.rs, without its account constraints.
  unfoldable pub bind_feed : BindContext → Result (MatchNode × Log)
  bind_feed c = do
    let m = c.match_account
    commitment ← ok_or m.commitment (code match_not_committed)
    require (is_on_demand c.switchboard_feed.owner) wrong_feed_account
    feed ← ok_or (sb.parse_feed c.switchboard_feed.bytes) (code wrong_feed_account)
    check_feed feed c.protocol_config commitment
    ok (
      record m { switchboard_feed = c.switchboard_feed.key },
      emit (match_feed_bound m.tournament m.bracket m.round m.match_index c.switchboard_feed.key)
          c.log,
    )

module _ (rt : Runtime) where
  unfoldable pub check_commit_accounts : CommitContext → Result (Unit {0})
  check_commit_accounts c = do
    require (c.organizer == c.tournament.organizer) unauthorized_authority
    check_tournament rt c.tournament
    check_match rt c.tournament c.match_account
    check_participant rt c.tournament c.match_account.player_a c.participant_a
    check_participant rt c.tournament c.match_account.player_b c.participant_b

  unfoldable pub commit_match_lobby : CommitContext → List ℕ → List ℕ → Result (MatchNode × Log)
  commit_match_lobby c lobby_id expected_feed_hash = do
    check_commit_accounts c
    commit_lobby c lobby_id expected_feed_hash

  unfoldable pub check_bind_accounts : BindContext → Result (Unit {0})
  check_bind_accounts c = do
    require (c.organizer == c.tournament.organizer) unauthorized_authority
    check_tournament rt c.tournament
    check_match rt c.tournament c.match_account
    check_protocol_config rt c.protocol_config

  unfoldable pub bind_match_feed : (sb : Switchboard) → BindContext → Result (MatchNode × Log)
  bind_match_feed sb c = do check_bind_accounts c; bind_feed sb c
