-- ===== src/Lifecycle.antt =====
-- The life of a tournament: its status moves along a graph, whichever of the instructions that write
-- the tournament is called.
use bracket_chain_programs.Prelude.{
  ℕ, ◌≡◌, sym, ap, subst, ◌∙◌, ◌≢◌, ◌⊎◌, inl, inr, true, false, List, arith, Bool-cases,
  Option-cases, ℤ, refl,
}
use bracket_chain_programs.Errors.{Result, ok, Result-cases}
use bracket_chain_programs.State.Tournament.{Tournament, TournamentStatus, is_registration}
use bracket_chain_programs.Events.{Log}
use bracket_chain_programs.Runtime.{Runtime, AccountInfo, TokenProgram}
use bracket_chain_programs.Platform.{SystemProgram, Finder, Keccak}
use bracket_chain_programs.Switchboard.{Switchboard}
use bracket_chain_programs.Settlement.Finalize.{Settlement}
use bracket_chain_programs.Settlement.Outcome.{IsWon, IsAdvanced}
use bracket_chain_programs.Proposal.Finalizers.{FinalizeContext, Players}
use bracket_chain_programs.Proposal.Calls.{Finalizer, run_finalizer}
use bracket_chain_programs.Proposal.Safety.{input_of, before, run_finalizer-IsOutcome}
use bracket_chain_programs.Refund.Process.{Refunding}
use bracket_chain_programs.Refund.Handlers.{
  RefundContext, is_cancellable, cancel_tournament, partial_refund_chunk, partial_cancel_tournament,
}
use bracket_chain_programs.Refund.Again.{cancel_tournament-again, process_refunds-again}
use bracket_chain_programs.Start.Seed.{open_bracket}
use bracket_chain_programs.Start.Descriptor.{MatchInitDescriptor}
use bracket_chain_programs.Start.Handler.{StartContext, Starting, start_tournament}
use bracket_chain_programs.Start.Outcome.{start_tournament-IsChunk}
use bracket_chain_programs.Randomness.Handler.{request_seed, reveal_seed}
use bracket_chain_programs.Registration.Create.{Registering}
use bracket_chain_programs.Registration.Join.{JoinContext, join_tournament}
pub mod Refines

-- The graph of the statuses.
pub data Edge : TournamentStatus → TournamentStatus → Type 0 where
  opens : Edge TournamentStatus.registration TournamentStatus.pending_bracket_init
  starts : Edge TournamentStatus.pending_bracket_init TournamentStatus.active
  completes : Edge TournamentStatus.active TournamentStatus.completed
  cancels_early : Edge TournamentStatus.registration TournamentStatus.cancelled
  cancels_pending : Edge TournamentStatus.pending_bracket_init TournamentStatus.cancelled
  cancels_late : Edge TournamentStatus.active TournamentStatus.partial_cancelled

-- The paths in it.
pub data Leads (a : TournamentStatus) : TournamentStatus → Type 0 where
  here : Leads a a
  along : {b c : TournamentStatus} → (way : Leads a b) → (last : Edge b c) → Leads a c

-- One successful instruction that writes a tournament which exists, in any context of the other
-- accounts. The migration of an old account is not among them.
pub data Move (rt : Runtime) (finder : Finder rt) (tp : TokenProgram) (sys : SystemProgram)
    (keccak : Keccak) (sb : Switchboard) : Tournament → Tournament → Type 1 where
  by_join :
      (c : JoinContext) (t t' : Tournament) (s s' : Registering tp.Ledger)
      → join_tournament rt finder tp sys c t s ≡ ok (t', s')
      → Move rt finder tp sys keccak sb t t'
  by_request :
      (organizer : ℕ) (account : AccountInfo) (slot : ℕ) (t t' : Tournament)
      → request_seed rt sb organizer account slot t ≡ ok t'
      → Move rt finder tp sys keccak sb t t'
  by_reveal :
      (account : AccountInfo) (slot : ℕ) (t t' : Tournament)
      → reveal_seed rt sb account slot t ≡ ok t'
      → Move rt finder tp sys keccak sb t t'
  by_start :
      (c : StartContext) (ds : List MatchInitDescriptor) (s s' : Starting)
      → start_tournament rt sys keccak c ds s ≡ ok s'
      → Move rt finder tp sys keccak sb s.tournament s'.tournament
  by_finalizer :
      (c : FinalizeContext tp.Ledger) (p : Players) (call : Finalizer) (s : Settlement tp.Ledger)
      → run_finalizer rt tp c p call ≡ ok s
      → Move rt finder tp sys keccak sb c.tournament s.tournament
  by_cancel :
      (c : RefundContext) (s s' : Refunding tp.Ledger)
      → cancel_tournament rt tp c s ≡ ok s'
      → Move rt finder tp sys keccak sb s.tournament s'.tournament
  by_partial_cancel :
      (organizer : ℕ) (now : ℤ) (t t' : Tournament) (log log' : Log)
      → partial_cancel_tournament rt organizer now t log ≡ ok (t', log')
      → Move rt finder tp sys keccak sb t t'
  by_refund :
      (c : RefundContext) (s s' : Refunding tp.Ledger)
      → partial_refund_chunk rt tp c s ≡ ok s'
      → Move rt finder tp sys keccak sb s.tournament s'.tournament

-- A history of such instructions, the last one outermost.
pub data History (rt : Runtime) (finder : Finder rt) (tp : TokenProgram) (sys : SystemProgram)
    (keccak : Keccak) (sb : Switchboard) (t : Tournament) : Tournament → Type 1 where
  untouched : History rt finder tp sys keccak sb t t
  after :
      {t' t'' : Tournament}
      → (past : History rt finder tp sys keccak sb t t')
      → (last : Move rt finder tp sys keccak sb t' t'') → History rt finder tp sys keccak sb t t''
