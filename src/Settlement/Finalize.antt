-- ===== src/Settlement/Finalize.antt =====
-- settlement.rs: `finalize_match`.
use bracket_chain_programs.Prelude.{
  ℕ, zero, suc, ◌/◌, ◌%◌, Bool, ◌&&◌, ◌||◌, Option, none, some, true, false, List, [], ◌∷◌, leb,
  ◌==◌, if◌then◌else◌, checked_add, truncate, ℤ,
}
use bracket_chain_programs.Errors.{
  Result, ok, code, panicked, arithmetic_overflow, non_participant_winner, invalid_match_index,
  not_active, match_already_reported, untrusted_multi_placement_final, invalid_payout_preset, ◌>>=◌,
  ◌>>◌, require, ok_or,
}
use bracket_chain_programs.State.Payout.{placement_count}
use bracket_chain_programs.State.Tournament.{Tournament, TournamentStatus, is_active}
use bracket_chain_programs.State.MatchNode.{MatchNode, MatchStatus, is_match_active}
use bracket_chain_programs.State.ProtocolConfig.{ProtocolConfig}
use bracket_chain_programs.Events.{Log, emit, match_reported, tournament_completed}
use bracket_chain_programs.Runtime.{AccountInfo, TokenProgram}
use bracket_chain_programs.Settlement.Advance.{advance_winner}
use bracket_chain_programs.Settlement.Prizes.{distribute_prizes}

-- The accounts that `finalize_match` writes, the ledger and the log.
pub record Settlement (L : Type 0) : Type 0 where
  pub tournament : Tournament
  pub match_account : MatchNode
  pub next_match : Option MatchNode
  pub ledger : L
  pub log : Log

-- What the caller hands over beside them: `vault` is the account's address.
pub record FinalizeInput : Type 0 where
  pub vault : ℕ
  pub protocol_config : ProtocolConfig
  pub remaining_accounts : List AccountInfo
  pub winner : ℕ
  pub placements : List ℕ
  pub placements_trusted : Bool
  pub now : ℤ

-- `trailing_zeros` of a word, with the bits that are left to look at.
unfoldable pub trailing_zeros : ℕ → ℕ → ℕ
trailing_zeros zero n = 0
trailing_zeros (suc k) n =
    let rest = suc (trailing_zeros k (n / 2)) in if n % 2 == 0 then rest else 0

-- `bracket_size.trailing_zeros() as u8`
unfoldable pub max_round_of : ℕ → ℕ
max_round_of bracket_size = truncate 8 (trailing_zeros 16 bracket_size)

-- The test for the final, of the bracket's size, the next round and the index.
unfoldable pub is_final_of : ℕ → ℕ → ℕ → Bool
is_final_of bracket_size next_round match_idx =
    next_round == max_round_of bracket_size && match_idx == 0

abbrev pub is_none {ℓ} : {A : Type ℓ} → Option A → Bool
is_none none = true
is_none (some _) = false

abbrev pub is_empty {ℓ} : {A : Type ℓ} → List A → Bool
is_empty [] = true
is_empty (_ ∷ _) = false

module _ (tp : TokenProgram) where
  -- The branch for the final: the pool is paid out and the tournament completes.
  unfoldable pub finish_final : FinalizeInput → Settlement tp.Ledger → Result (Settlement tp.Ledger)
  finish_final i s = do
    require (i.placements_trusted || leb (placement_count s.tournament.payout_preset) 1)
        untrusted_multi_placement_final
    require (is_none s.next_match) invalid_match_index
    d ←
        distribute_prizes tp s.tournament i.protocol_config i.vault i.remaining_accounts i.winner
          s.match_account.player_a s.match_account.player_b i.placements s.ledger
    ok (record s {
      tournament = record (s.tournament) {
        status = TournamentStatus.completed;
        champion = i.winner;
        completed_at = i.now;
      };
      ledger = d.ledger;
      log =
          emit
            (tournament_completed s.tournament.key i.winner d.gross_pool d.fee_amount d.net_pool
              i.now d.placement_payouts i.protocol_config.treasury)
            s.log;
    })

  -- The branch for every other match: the winner moves on.
  unfoldable pub finish_round : FinalizeInput → Settlement tp.Ledger → Result (Settlement tp.Ledger)
  finish_round i s = do
    require (is_empty i.placements) invalid_payout_preset
    next ←
        advance_winner s.next_match s.tournament.key s.match_account.round
          s.match_account.match_index i.winner
    ok (record s { next_match = some next })

  -- The checks that every path shares, and the writes to the match and to the count of reports.
  unfoldable pub report_match : FinalizeInput → Settlement tp.Ledger → Result (Settlement tp.Ledger)
  report_match i s = do
    let t = s.tournament
    let m = s.match_account
    require (is_active t.status) not_active
    require (is_match_active m.status) match_already_reported
    require (i.winner == m.player_a || i.winner == m.player_b) non_participant_winner
    reported ← ok_or (checked_add 16 t.matches_reported 1) (code arithmetic_overflow)
    ok (record s {
      tournament = record t { matches_reported = reported };
      match_account = record m { winner = i.winner; status = MatchStatus.completed };
      log = emit (match_reported t.key m.bracket m.round m.match_index i.winner i.now) s.log;
    })

  unfoldable pub finalize_match :
      FinalizeInput → Settlement tp.Ledger → Result (Settlement tp.Ledger)
  finalize_match i s = do
    s' ← report_match i s
    next_round ← ok_or (checked_add 8 s'.match_account.round 1) panicked
    if is_final_of s'.tournament.bracket_size next_round s'.match_account.match_index
        then finish_final i s'
        else finish_round i s'
