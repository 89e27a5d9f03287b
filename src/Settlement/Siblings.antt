-- ===== src/Settlement/Siblings.antt =====
-- The two matches that feed one node may finish in either order.
use bracket_chain_programs.Prelude.{ℕ, ◌+◌, ◌/◌, ◌%◌, ◌<◌, ◌≡◌, refl, ◌≢◌, none, some, arith, ap}
use bracket_chain_programs.Errors.{ok, err, code, invalid_match_index, ◌>>=◌}
use bracket_chain_programs.State.MatchNode.{MatchNode, MatchStatus}
use bracket_chain_programs.Settlement.Advance.{fill_slot, advance_winner}

-- With both slots filled by real players the node is active and holds the two winners.
fill_slot_both :
    (next : MatchNode) (i j v w : ℕ)
    → i % 2 ≡ 0
    → j % 2 ≡ 1
    → v ≢ 0
    → w ≢ 0
    → fill_slot (fill_slot next i v) j w
      ≡ record next { player_a = v; player_b = w; status = MatchStatus.active }
unfolding fill_slot
fill_slot_both next i j v w ei ej nv nw = ground arith

fill_slot_both_swapped :
    (next : MatchNode) (i j v w : ℕ)
    → i % 2 ≡ 0
    → j % 2 ≡ 1
    → v ≢ 0
    → w ≢ 0
    → fill_slot (fill_slot next j w) i v
      ≡ record next { player_a = v; player_b = w; status = MatchStatus.active }
unfolding fill_slot
fill_slot_both_swapped next i j v w ei ej nv nw = ground arith

-- A node takes a winner exactly when it is the match's parent in the same tournament.
pub record IsParent (next : MatchNode) (tournament_key match_round match_idx : ℕ) : Type 0 where
  pub same_tournament : next.tournament ≡ tournament_key
  pub next_round : next.round ≡ match_round + 1
  pub byte_round : match_round + 1 < 256
  pub half_index : next.match_index ≡ match_idx / 2

pub advance_winner-parent :
    (next : MatchNode) (key round idx w : ℕ)
    → IsParent next key round idx
    → advance_winner (some next) key round idx w ≡ ok (fill_slot next idx w)
unfolding advance_winner
advance_winner-parent next key round idx w p = ground arith

pub advance_winner-none :
    (key round idx w : ℕ) → advance_winner none key round idx w ≡ err (code invalid_match_index)
unfolding advance_winner
advance_winner-none key round idx w = refl

pub advance_winner-ok :
    (next next' : MatchNode) (key round idx w : ℕ)
    → advance_winner (some next) key round idx w ≡ ok next'
    → IsParent next key round idx × (next' ≡ fill_slot next idx w)
unfolding advance_winner
advance_winner-ok next next' key round idx w h = ground arith

fill_slot-IsParent :
    (next : MatchNode) (key round idx idx' j v : ℕ)
    → idx / 2 ≡ idx' / 2
    → IsParent next key round idx
    → IsParent (fill_slot next j v) key round idx'
unfolding fill_slot
fill_slot-IsParent next key round idx idx' j v e p = record {
  same_tournament = p.same_tournament;
  next_round = p.next_round;
  byte_round = p.byte_round;
  half_index = omega (arith, p.half_index);
}

-- Two matches 2k and 2k + 1 of one round feed the same node. Whichever of their winners advances
-- first, both calls succeed, and the node ends active, with the even match's winner as player a and
-- the odd match's as player b, and otherwise as it was.
pub advance_winner_either_order :
    (next : MatchNode) (key round i j v w : ℕ)
    → IsParent next key round i
    → i / 2 ≡ j / 2
    → i % 2 ≡ 0
    → j % 2 ≡ 1
    → v ≢ 0
    → w ≢ 0
    → ((advance_winner (some next) key round i v >>= λ n. advance_winner (some n) key round j w)
        ≡ ok (record next { player_a = v; player_b = w; status = MatchStatus.active }))
      × ((advance_winner (some next) key round j w >>= λ n. advance_winner (some n) key round i v)
          ≡ ok (record next { player_a = v; player_b = w; status = MatchStatus.active }))
advance_winner_either_order next key round i j v w p e ei ej nv nw =
    let even_first =
      advance_winner-parent (fill_slot next i v) key round j w
        (fill_slot-IsParent next key round i j i v e p) in
    let odd_first =
      advance_winner-parent (fill_slot next j w) key round i v
        (fill_slot-IsParent next key round i i j w refl p) in
    let at_even = advance_winner-parent next key round i v p in
    let at_odd = advance_winner-parent next key round j w (record {
      same_tournament = p.same_tournament;
      next_round = p.next_round;
      byte_round = p.byte_round;
      half_index = omega (arith, p.half_index);
    }) in
    (
      rw (at_even, even_first) (ap ok (fill_slot_both next i j v w ei ej nv nw)),
      rw (at_odd, odd_first) (ap ok (fill_slot_both_swapped next i j v w ei ej nv nw)),
    )
