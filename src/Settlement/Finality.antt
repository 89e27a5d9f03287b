-- ===== src/Settlement/Finality.antt =====
-- Which match is the final, told by the number of rounds.
use bracket_chain_programs.Prelude.{
  ℕ, zero, suc, ◌+◌, ◌*◌, ◌/◌, ◌%◌, ◌^◌, ◌<◌, ◌≡◌, refl, ◌⊎◌, ◌≢◌, ◌==◌, ◌&&◌, not, if◌then◌else◌,
  some, Bool-cases, inl, inr, true, false, arith, ap, ◌∙◌,
}
use bracket_chain_programs.Errors.{ok}
use bracket_chain_programs.State.MatchNode.{MatchNode, MatchStatus}
use bracket_chain_programs.Settlement.Advance.{fill_slot}
use bracket_chain_programs.Runtime.{TokenProgram}
use bracket_chain_programs.Settlement.Finalize.{
  Settlement, FinalizeInput, trailing_zeros, max_round_of, is_final_of, finalize_match,
}
use bracket_chain_programs.Settlement.Outcome.{
  IsReported, IsWon, IsAdvanced, ends, finalize_match-outcome,
}

pub pow_suc : (k : ℕ) → 2 ^ suc k ≡ 2 * 2 ^ k
pow_suc k = omega arith

pub trailing_zeros-pow : (fuel k : ℕ) → k < fuel → trailing_zeros fuel (2 ^ k) ≡ k
unfolding trailing_zeros
trailing_zeros-pow zero k h = absurd (omega arith)
trailing_zeros-pow (suc fuel) zero h = refl
trailing_zeros-pow (suc fuel) (suc k) h =
    let even : 2 ^ suc k % 2 ≡ 0 = rw (pow_suc k) (omega arith) in
    let half : 2 ^ suc k / 2 ≡ 2 ^ k = rw (pow_suc k) (omega arith) in
    rw (even, half) (ground (arith, trailing_zeros-pow fuel k (omega arith)))

-- A bracket of `2 ^ rounds` places ends with the first match of its last round.
abbrev pub IsLast : ℕ → ℕ → ℕ → Type 0
IsLast rounds round match_index = (round + 1 ≡ rounds) × (match_index ≡ 0)

is_final_of-IsLast :
    (rounds size round match_index : ℕ)
    → rounds < 16
    → size ≡ 2 ^ rounds
    → ((is_final_of size (round + 1) match_index ≡ true) × IsLast rounds round match_index)
      ⊎ ((is_final_of size (round + 1) match_index ≡ false) × ¬ (IsLast rounds round match_index))
unfolding is_final_of max_round_of
is_final_of-IsLast rounds size round match_index few e =
    let zeros : trailing_zeros 16 size ≡ rounds =
      ap (trailing_zeros 16) e ∙ trailing_zeros-pow 16 rounds few in
    ground (arith, zeros)

-- The winner has entered the parent at the slot of its match, the first one for an even index; the
-- other slot and all else stays, and the parent is active once both players are known.
pub record HasEntered (next next' : MatchNode) (match_index winner : ℕ) : Type 0 where
  pub slot :
      ((match_index % 2 ≡ 0) × (next'.player_a ≡ winner) × (next'.player_b ≡ next.player_b))
      ⊎ ((match_index % 2 ≡ 1) × (next'.player_a ≡ next.player_a) × (next'.player_b ≡ winner))
  pub status :
      ((next'.player_a ≢ 0) × (next'.player_b ≢ 0) × (next'.status ≡ MatchStatus.active))
      ⊎ (((next'.player_a ≡ 0) ⊎ (next'.player_b ≡ 0)) × (next'.status ≡ next.status))
  pub rest :
      next'
      ≡ record next { player_a = next'.player_a; player_b = next'.player_b; status = next'.status }

fill_slot-HasEntered :
    (next : MatchNode) (match_index winner : ℕ)
    → HasEntered next (fill_slot next match_index winner) match_index winner
unfolding fill_slot
fill_slot-HasEntered next match_index winner = record {
  slot = elim (Bool-cases (match_index % 2 == 0)) [
    | inl even ↦ inl (ground arith)
    | inr odd ↦ inr (ground arith)
  ];
  status =
      active_if_known (if match_index % 2 == 0 then winner else next.player_a)
        (if match_index % 2 == 0 then next.player_b else winner) next.status;
  rest = refl;
}
  where
    active_if_known :
        (a b : ℕ) (status : MatchStatus)
        → ((a ≢ 0)
            × (b ≢ 0)
            × ((if not (a == 0) && not (b == 0) then MatchStatus.active else status)
                ≡ MatchStatus.active))
          ⊎ (((a ≡ 0) ⊎ (b ≡ 0))
              × ((if not (a == 0) && not (b == 0) then MatchStatus.active else status) ≡ status))
    active_if_known a b status = elim (Bool-cases (a == 0)) [
      | inl no_a ↦ inr (ground arith)
      | inr known_a ↦ elim (Bool-cases (b == 0)) [
        | inl no_b ↦ inr (ground arith)
        | inr known_b ↦ inl (ground arith)
      ]
    ]

module _ (tp : TokenProgram) (i : FinalizeInput) (s s' : Settlement tp.Ledger) where
  -- The parent match before and after.
  abbrev pub HasMovedOn : Type 0
  HasMovedOn =
      (next : MatchNode) × (next' : MatchNode) × (s.next_match ≡ some next)
      × (s'.next_match ≡ some next')
      × HasEntered next next' s.match_account.match_index i.winner

  moved_on : IsAdvanced tp i s s' → HasMovedOn
  moved_on a = (
    a.next,
    fill_slot a.next s.match_account.match_index i.winner,
    a.next_before,
    a.next_after,
    fill_slot-HasEntered a.next s.match_account.match_index i.winner,
  )

  -- In a bracket of `2 ^ rounds` places, fewer than 16 rounds, a successful `finalize_match` was
  -- called on an active match of an active tournament for one of its players, completes the match
  -- for that winner and counts it once. On the first match of the last round, with rounds counted
  -- from 0, the placements were trusted or there is one at most, the prizes are distributed and the
  -- tournament completes with the winner as its champion. On any other match no placements were
  -- given, no token moves, the tournament stays active, and the winner enters the parent match.
  pub finalize_match-finality :
      (rounds : ℕ)
      → rounds < 16
      → s.tournament.bracket_size ≡ 2 ^ rounds
      → finalize_match tp i s ≡ ok s'
      → IsReported tp i s s'
        × ((IsLast rounds s.match_account.round s.match_account.match_index × IsWon tp i s s')
            ⊎ (¬ (IsLast rounds s.match_account.round s.match_account.match_index)
                × IsAdvanced tp i s s'
                × HasMovedOn))
  finalize_match-finality rounds few size h =
      let (reported, branch) = finalize_match-outcome tp i s s' h in
      (
        reported,
        decided branch (
            is_final_of-IsLast rounds s.tournament.bracket_size s.match_account.round
              s.match_account.match_index few size),
      )
    where
      decided :
          ((ends tp i s ≡ true) × IsWon tp i s s') ⊎ ((ends tp i s ≡ false) × IsAdvanced tp i s s')
          → ((ends tp i s ≡ true) × IsLast rounds s.match_account.round s.match_account.match_index)
            ⊎ ((ends tp i s ≡ false)
                × ¬ (IsLast rounds s.match_account.round s.match_account.match_index))
          → (IsLast rounds s.match_account.round s.match_account.match_index × IsWon tp i s s')
            ⊎ (¬ (IsLast rounds s.match_account.round s.match_account.match_index)
                × IsAdvanced tp i s s'
                × HasMovedOn)
      decided (inl (e, won)) (inl (e', last)) = inl (last, won)
      decided (inl (e, won)) (inr (e', other)) = absurd (ground (arith, e, e'))
      decided (inr (e, moved)) (inl (e', last)) = absurd (ground (arith, e, e'))
      decided (inr (e, moved)) (inr (e', other)) = inr (other, moved, moved_on moved)
