-- ===== src/Settlement/Advance.antt =====
-- settlement.rs: `advance_winner` and `credit_match_stats`.
use bracket_chain_programs.Prelude.{
  ℕ, ◌/◌, ◌%◌, ◌&&◌, not, Option, ◌==◌, if◌then◌else◌, checked_add, saturating_inc8,
}
use bracket_chain_programs.Errors.{
  Result, ok, code, panicked, invalid_match_index, ◌>>=◌, ◌>>◌, require, ok_or,
}
use bracket_chain_programs.State.{default_key}
use bracket_chain_programs.State.MatchNode.{MatchNode, MatchStatus}
use bracket_chain_programs.State.Participant.{Participant}

-- The two accounts come back in the order in which they were handed over.
unfoldable pub credit_match_stats : Participant → Participant → ℕ → Participant × Participant
credit_match_stats a b winner =
    if a.wallet == winner
    then (
      record a { wins = saturating_inc8 a.wins },
      record b { losses = saturating_inc8 b.losses },
    )
    else (
      record a { losses = saturating_inc8 a.losses },
      record b { wins = saturating_inc8 b.wins },
    )

-- The writes of `advance_winner`: one slot is filled, and the node is active once both are.
unfoldable pub fill_slot : MatchNode → ℕ → ℕ → MatchNode
fill_slot next match_idx winner =
    let a = if match_idx % 2 == 0 then winner else next.player_a in
    let b = if match_idx % 2 == 0 then next.player_b else winner in
    record next {
      player_a = a;
      player_b = b;
      status =
          if not (a == default_key) && not (b == default_key)
          then MatchStatus.active
          else next.status;
    }

-- `match_round + 1` is a sum of bytes and panics on overflow.
unfoldable pub advance_winner : Option MatchNode → ℕ → ℕ → ℕ → ℕ → Result MatchNode
advance_winner next_match_opt tournament_key match_round match_idx winner = do
  next ← ok_or next_match_opt (code invalid_match_index)
  require (next.tournament == tournament_key) invalid_match_index
  next_round ← ok_or (checked_add 8 match_round 1) panicked
  require (next.round == next_round) invalid_match_index
  require (next.match_index == match_idx / 2) invalid_match_index
  ok (fill_slot next match_idx winner)
