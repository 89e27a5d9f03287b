-- ===== src/Settlement/Outcome.antt =====
-- What `finalize_match` does, on both branches, when it succeeds.
use bracket_chain_programs.Prelude.{
  ◌+◌, ◌≤◌, ◌≡◌, ◌⊎◌, Bool, true, false, none, some, [], arith, Bool-cases, Option-cases,
  if◌then◌else◌, inl, inr,
}
use bracket_chain_programs.Errors.{ok, Result-cases}
use bracket_chain_programs.State.Payout.{placement_count}
use bracket_chain_programs.State.Tournament.{TournamentStatus}
use bracket_chain_programs.State.MatchNode.{MatchNode, MatchStatus}
use bracket_chain_programs.Events.{Log, emit, match_reported}
use bracket_chain_programs.Runtime.{TokenProgram}
use bracket_chain_programs.Settlement.Advance.{fill_slot, advance_winner}
use bracket_chain_programs.Settlement.Siblings.{IsParent, advance_winner-ok, advance_winner-none}
use bracket_chain_programs.Settlement.Prizes.{Distribution, distribute_prizes}
use bracket_chain_programs.Settlement.Finalize.{
  Settlement, FinalizeInput, is_final_of, report_match, finish_final, finish_round, finalize_match,
}

module _ (tp : TokenProgram) (i : FinalizeInput) (s s' : Settlement tp.Ledger) where
  -- What the checks have established, and what is written on both branches.
  pub record IsReported : Type 0 where
    pub was_active : s.tournament.status ≡ TournamentStatus.active
    pub match_was_active : s.match_account.status ≡ MatchStatus.active
    pub winner_played :
        (i.winner ≡ s.match_account.player_a) ⊎ (i.winner ≡ s.match_account.player_b)
    pub match_after :
        s'.match_account
        ≡ record (s.match_account) { winner = i.winner; status = MatchStatus.completed }
    pub counted : s'.tournament.matches_reported ≡ s.tournament.matches_reported + 1

  -- The final: the tournament completes with the winner as its champion, and the pool is paid out.
  pub record IsWon : Type 0 where
    pub completed : s'.tournament.status ≡ TournamentStatus.completed
    pub champion : s'.tournament.champion ≡ i.winner
    pub completed_at : s'.tournament.completed_at ≡ i.now
    pub trusted : (i.placements_trusted ≡ true) ⊎ (placement_count s.tournament.payout_preset ≤ 1)
    pub no_next : (s.next_match ≡ none) × (s'.next_match ≡ none)
    pub distribution : Distribution tp.Ledger
    pub paid :
        distribute_prizes tp
          (record (s.tournament) { matches_reported = s.tournament.matches_reported + 1 })
          i.protocol_config
          i.vault
          i.remaining_accounts
          i.winner
          s.match_account.player_a
          s.match_account.player_b
          i.placements
          s.ledger
        ≡ ok distribution
    pub ledger_after : s'.ledger ≡ distribution.ledger

  -- Any other match: the winner moves on, and no token does.
  pub record IsAdvanced : Type 0 where
    pub still_active : s'.tournament.status ≡ TournamentStatus.active
    pub same_champion : s'.tournament.champion ≡ s.tournament.champion
    pub no_placements : i.placements ≡ []
    pub ledger_same : s'.ledger ≡ s.ledger
    pub next : MatchNode
    pub next_before : s.next_match ≡ some next
    pub parent : IsParent next s.tournament.key s.match_account.round s.match_account.match_index
    pub next_after : s'.next_match ≡ some (fill_slot next s.match_account.match_index i.winner)

-- What has been done to a match, on either branch.
abbrev pub IsOutcome :
    (tp : TokenProgram) → FinalizeInput → Settlement tp.Ledger → Settlement tp.Ledger → Type 0
IsOutcome tp i s s' = IsReported tp i s s' × (IsWon tp i s s' ⊎ IsAdvanced tp i s s')

module _ (tp : TokenProgram) (i : FinalizeInput) (s s' : Settlement tp.Ledger) (log : Log) where
  relog_won : IsWon tp i s s' → IsWon tp i s (record s' { log = log })
  relog_won w = record {
    completed = w.completed;
    champion = w.champion;
    completed_at = w.completed_at;
    trusted = w.trusted;
    no_next = w.no_next;
    distribution = w.distribution;
    paid = w.paid;
    ledger_after = w.ledger_after;
  }

  relog_advanced : IsAdvanced tp i s s' → IsAdvanced tp i s (record s' { log = log })
  relog_advanced a = record {
    still_active = a.still_active;
    same_champion = a.same_champion;
    no_placements = a.no_placements;
    ledger_same = a.ledger_same;
    next = a.next;
    next_before = a.next_before;
    parent = a.parent;
    next_after = a.next_after;
  }

  relog_branch :
      IsWon tp i s s' ⊎ IsAdvanced tp i s s'
      → IsWon tp i s (record s' { log = log }) ⊎ IsAdvanced tp i s (record s' { log = log })
  relog_branch (inl w) = inl (relog_won w)
  relog_branch (inr a) = inr (relog_advanced a)

  -- The outcome does not depend on the log.
  pub IsOutcome-relog : IsOutcome tp i s s' → IsOutcome tp i s (record s' { log = log })
  IsOutcome-relog o = (
    record {
      was_active = o.0.was_active;
      match_was_active = o.0.match_was_active;
      winner_played = o.0.winner_played;
      match_after = o.0.match_after;
      counted = o.0.counted;
    },
    relog_branch o.1,
  )

module _ (tp : TokenProgram) (i : FinalizeInput) (s : Settlement tp.Ledger) where
  -- The settlement after the checks and the writes that both branches share.
  abbrev reported : Settlement tp.Ledger
  reported = record s {
    tournament = record (s.tournament) { matches_reported = s.tournament.matches_reported + 1 };
    match_account = record (s.match_account) { winner = i.winner; status = MatchStatus.completed };
    log =
        emit
          (match_reported s.tournament.key s.match_account.bracket s.match_account.round
            s.match_account.match_index i.winner i.now)
          s.log;
  }

  report_match-reported :
      (s1 : Settlement tp.Ledger)
      → report_match tp i s ≡ ok s1
      → (s1 ≡ reported)
        × (s.tournament.status ≡ TournamentStatus.active)
        × (s.match_account.status ≡ MatchStatus.active)
        × ((i.winner ≡ s.match_account.player_a) ⊎ (i.winner ≡ s.match_account.player_b))
  unfolding report_match
  report_match-reported s1 h = ground arith

  finish_final-IsWon :
      (s' : Settlement tp.Ledger)
      → finish_final tp i reported ≡ ok s'
      → IsWon tp i s s'
        × (s'.match_account ≡ reported.match_account)
        × (s'.tournament.matches_reported ≡ s.tournament.matches_reported + 1)
  unfolding finish_final
  finish_final-IsWon s' h =
      let r =
        distribute_prizes tp reported.tournament i.protocol_config i.vault i.remaining_accounts
          i.winner s.match_account.player_a s.match_account.player_b i.placements s.ledger in
      elim (Result-cases r) [
        | inl (d, e) ↦ (
          record {
            completed = ground arith;
            champion = ground arith;
            completed_at = ground arith;
            trusted = ground arith;
            no_next = ground arith;
            distribution = d;
            paid = e;
            ledger_after = ground arith;
          },
          ground arith,
          ground arith,
        )
        | inr (e, f) ↦ ground arith
      ]

  finish_round-IsAdvanced :
      (s' : Settlement tp.Ledger)
      → s.tournament.status ≡ TournamentStatus.active
      → finish_round tp i reported ≡ ok s'
      → IsAdvanced tp i s s'
        × (s'.match_account ≡ reported.match_account)
        × (s'.tournament.matches_reported ≡ s.tournament.matches_reported + 1)
  unfolding finish_round
  finish_round-IsAdvanced s' a h = elim (Option-cases s.next_match) [
    | inl e ↦ absurd (
        ground (
          arith,
          advance_winner-none s.tournament.key s.match_account.round s.match_account.match_index
              i.winner,
        ))
    | inr (next, e) ↦
        elim (Result-cases (
          advance_winner (some next) s.tournament.key s.match_account.round
            s.match_account.match_index i.winner)) [
              | inl (next', moved) ↦
                  let (parent, filled) =
                    advance_winner-ok next next' s.tournament.key s.match_account.round
                      s.match_account.match_index i.winner moved in
                  (
                    record {
                      still_active = ground arith;
                      same_champion = ground arith;
                      no_placements = ground arith;
                      ledger_same = ground arith;
                      next = next;
                      next_before = e;
                      parent = parent;
                      next_after = ground arith;
                    },
                    ground arith,
                    ground arith,
                  )
              | inr (x, failed) ↦ absurd (ground arith)
            ]
  ]

  -- The test for the final.
  abbrev pub ends : Bool
  ends =
      is_final_of s.tournament.bracket_size (s.match_account.round + 1) s.match_account.match_index

  branch-outcome :
      (s' : Settlement tp.Ledger)
      → s.tournament.status ≡ TournamentStatus.active
      → (if ends then finish_final tp i reported else finish_round tp i reported) ≡ ok s'
      → (((ends ≡ true) × IsWon tp i s s') ⊎ ((ends ≡ false) × IsAdvanced tp i s s'))
        × (s'.match_account ≡ reported.match_account)
        × (s'.tournament.matches_reported ≡ s.tournament.matches_reported + 1)
  branch-outcome s' a h = elim (Bool-cases ends) [
    | inl e ↦ let (won, m, n) = finish_final-IsWon s' (ground arith) in (inl (e, won), m, n)
    | inr e ↦
        let (moved, m, n) = finish_round-IsAdvanced s' a (ground arith) in (inr (e, moved), m, n)
  ]

  -- A successful `finalize_match` was called on an active match of an active tournament for one of
  -- its players. The match is completed for that winner and counted once. If it is the final, the
  -- placements were trusted or there is one at most, the prizes are distributed, and the tournament
  -- completes with the winner as its champion. If not, no placements were given, no token moves,
  -- and the winner fills its slot of the parent match.
  pub finalize_match-outcome :
      (s' : Settlement tp.Ledger)
      → finalize_match tp i s ≡ ok s'
      → IsReported tp i s s'
        × (((ends ≡ true) × IsWon tp i s s') ⊎ ((ends ≡ false) × IsAdvanced tp i s s'))
  unfolding finalize_match
  finalize_match-outcome s' h = elim (Result-cases (report_match tp i s)) [
    | inl (s1, e) ↦
        let (same, a, m, played) = report_match-reported s1 e in
        let (branch, after, counted) = branch-outcome s' a (ground arith) in
        (
          record {
            was_active = a;
            match_was_active = m;
            winner_played = played;
            match_after = after;
            counted = counted;
          },
          branch,
        )
    | inr (x, e) ↦ absurd (ground arith)
  ]

  pub finalize_match-IsOutcome :
      (s' : Settlement tp.Ledger) → finalize_match tp i s ≡ ok s' → IsOutcome tp i s s'
  finalize_match-IsOutcome s' h = let o = finalize_match-outcome s' h in (o.0, either o.1)
    where
      either :
          (((ends ≡ true) × IsWon tp i s s') ⊎ ((ends ≡ false) × IsAdvanced tp i s s'))
          → IsWon tp i s s' ⊎ IsAdvanced tp i s s'
      either (inl w) = inl w.1
      either (inr a) = inr a.1
