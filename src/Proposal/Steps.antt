-- ===== src/Proposal/Steps.antt =====
-- The instructions on a match as a step relation, and what the histories of a match keep.
use bracket_chain_programs.Prelude.{ℕ, ◌≡◌, ◌≢◌, ◌⊎◌, false, none, some, List}
use bracket_chain_programs.Errors.{ok}
use bracket_chain_programs.State.MatchNode.{MatchNode, MatchStatus, ProposalSource}
use bracket_chain_programs.Events.{Log}
use bracket_chain_programs.Runtime.{Runtime, TokenProgram}
use bracket_chain_programs.Settlement.Finalize.{Settlement}
use bracket_chain_programs.Proposal.Envelope.{EnvelopeContext, propose_result, dispute_result}
use bracket_chain_programs.Proposal.Finalizers.{FinalizeContext, Players}
use bracket_chain_programs.Proposal.Calls.{Finalizer, run_finalizer}
use bracket_chain_programs.Switchboard.{Switchboard}
use bracket_chain_programs.Oracle.Lobby.{
  CommitContext, BindContext, commit_match_lobby, bind_match_feed,
}
use bracket_chain_programs.Oracle.Propose.{OracleContext, propose_result_oracle}

-- One successful instruction on the match, in any context of the other accounts. In `advanced` the
-- match is the parent of the one that is finalized, and `Enters` says which parents a winner enters.
pub data Step (rt : Runtime) (tp : TokenProgram) (sb : Switchboard) (Enters : MatchNode → Type 0)
    : MatchNode → MatchNode → Type 1 where
  proposed :
      (c : EnvelopeContext) (w : ℕ) (m : MatchNode) (log : Log)
      → propose_result rt c w ≡ ok (m, log)
      → Step rt tp sb Enters c.match_account m
  disputed :
      (c : EnvelopeContext) (reason : ℕ) (m : MatchNode) (log : Log)
      → dispute_result rt c reason ≡ ok (m, log)
      → Step rt tp sb Enters c.match_account m
  finalized :
      (c : FinalizeContext tp.Ledger) (p : Players) (call : Finalizer) (s : Settlement tp.Ledger)
      → run_finalizer rt tp c p call ≡ ok s
      → Step rt tp sb Enters c.match_account s.match_account
  advanced :
      (c : FinalizeContext tp.Ledger) (p : Players) (call : Finalizer) (s : Settlement tp.Ledger)
      (m m' : MatchNode)
      → run_finalizer rt tp c p call ≡ ok s
      → c.next_match ≡ some m
      → s.next_match ≡ some m'
      → Enters m
      → Step rt tp sb Enters m m'
  lobby_committed :
      (c : CommitContext) (lobby_id feed_hash : List ℕ) (m : MatchNode) (log : Log)
      → commit_match_lobby rt c lobby_id feed_hash ≡ ok (m, log)
      → Step rt tp sb Enters c.match_account m
  feed_bound :
      (c : BindContext) (m : MatchNode) (log : Log)
      → bind_match_feed rt sb c ≡ ok (m, log)
      → Step rt tp sb Enters c.match_account m
  oracle_proposed :
      (c : OracleContext) (m : MatchNode) (log : Log)
      → propose_result_oracle rt sb c ≡ ok (m, log)
      → Step rt tp sb Enters c.match_account m

-- A history of such instructions, the last one outermost.
pub data Reach (rt : Runtime) (tp : TokenProgram) (sb : Switchboard) (Enters : MatchNode → Type 0)
    (m : MatchNode) : MatchNode → Type 1 where
  untouched : Reach rt tp sb Enters m m
  after :
      {m' m'' : MatchNode}
      → (history : Reach rt tp sb Enters m m') → (last : Step rt tp sb Enters m' m'')
      → Reach rt tp sb Enters m m''

-- The envelope names a player as long as it holds a proposal, only a proposal is disputed, only a
-- committed match has a proposal by the oracle, a completed match was won by one of its players, and
-- a match that waits for its players has no proposal.
pub record IsSound (m : MatchNode) : Type 0 where
  pub proposal :
      (m.proposal_source ≡ ProposalSource.no_source)
      ⊎ ((m.proposed_winner ≡ m.player_a) ⊎ (m.proposed_winner ≡ m.player_b))
  pub flag : (m.disputed ≡ false) ⊎ (m.proposal_source ≢ ProposalSource.no_source)
  pub anchor : (m.proposal_source ≢ ProposalSource.oracle) ⊎ (m.commitment ≢ none)
  pub result :
      (m.status ≢ MatchStatus.completed) ⊎ ((m.winner ≡ m.player_a) ⊎ (m.winner ≡ m.player_b))
  pub waiting : (m.status ≢ MatchStatus.pending) ⊎ (m.proposal_source ≡ ProposalSource.no_source)

-- The match waits for its players.
abbrev pub IsPending : MatchNode → Type 0
IsPending m = m.status ≡ MatchStatus.pending

-- What a completed match keeps.
abbrev pub IsSettled : MatchNode → MatchNode → Type 0
IsSettled m m' =
    (m'.status ≡ MatchStatus.completed)
    × (m'.winner ≡ m.winner)
    × (m'.player_a ≡ m.player_a)
    × (m'.player_b ≡ m.player_b)
