-- ===== src/Lifecycle/Refines.antt =====
-- The instructions that write a tournament refine the graph of its statuses.
use bracket_chain_programs.Prelude.{
  ℕ, ◌≡◌, sym, ap, subst, ◌∙◌, inl, inr, true, List, arith, Bool-cases, Option-cases, ℤ, refl,
}
use bracket_chain_programs.Errors.{ok}
use bracket_chain_programs.State.Tournament.{Tournament, TournamentStatus, is_registration}
use bracket_chain_programs.Events.{Log}
use bracket_chain_programs.Runtime.{Runtime, AccountInfo, TokenProgram}
use bracket_chain_programs.Platform.{SystemProgram, Finder, Keccak}
use bracket_chain_programs.Switchboard.{Switchboard}
use bracket_chain_programs.Settlement.Finalize.{Settlement}
use bracket_chain_programs.Proposal.Finalizers.{FinalizeContext, Players}
use bracket_chain_programs.Proposal.Calls.{Finalizer, run_finalizer}
use bracket_chain_programs.Proposal.Safety.{run_finalizer-IsOutcome}
use bracket_chain_programs.Refund.Process.{Refunding}
use bracket_chain_programs.Refund.Handlers.{
  RefundContext, is_cancellable, cancel_tournament, partial_refund_chunk, partial_cancel_tournament,
}
use bracket_chain_programs.Refund.Again.{cancel_tournament-again, process_refunds-again}
use bracket_chain_programs.Start.Seed.{open_bracket}
use bracket_chain_programs.Start.Descriptor.{MatchInitDescriptor}
use bracket_chain_programs.Start.Handler.{StartContext, Starting, start_tournament}
use bracket_chain_programs.Start.Outcome.{start_tournament-IsChunk}
use bracket_chain_programs.Randomness.Handler.{request_seed, reveal_seed}
use bracket_chain_programs.Registration.Joined.{join_tournament-status}
use bracket_chain_programs.Lifecycle.{
  opens, starts, completes, cancels_early, cancels_pending, cancels_late, Leads, here, along, Move,
  by_join, by_request, by_reveal, by_start, by_finalizer, by_cancel, by_partial_cancel, by_refund,
  History, untouched, after,
}

two_ways : {a b c : TournamentStatus} → Leads a b → Leads b c → Leads a c
two_ways p here = p
two_ways p (along q e) = along (two_ways p q) e

-- The statuses in which `cancel_tournament` succeeds.
cancellable_path :
    (a : TournamentStatus) → is_cancellable a ≡ true → Leads a TournamentStatus.cancelled
cancellable_path TournamentStatus.registration e = along here cancels_early
cancellable_path TournamentStatus.pending_bracket_init e = along here cancels_pending
cancellable_path TournamentStatus.active e = absurd (ground arith)
cancellable_path TournamentStatus.completed e = absurd (ground arith)
cancellable_path TournamentStatus.cancelled e = here
cancellable_path TournamentStatus.partial_cancelled e = absurd (ground arith)

-- A path between the statuses that two equations name.
path_between : {a b a' b' : TournamentStatus} → a ≡ a' → b ≡ b' → Leads a' b' → Leads a b
path_between {a} {b} {a'} e e' p =
    subst (λ x. Leads x b) (sym e) (subst (λ x. Leads a' x) (sym e') p)

request_seed-status :
    (rt : Runtime) (sb : Switchboard) (organizer : ℕ) (account : AccountInfo) (slot : ℕ)
    (t t' : Tournament)
    → request_seed rt sb organizer account slot t ≡ ok t'
    → t'.status ≡ t.status
unfolding request_seed
request_seed-status rt sb organizer account slot t t' h =
    elim (Option-cases (sb.parse_randomness account.bytes)) [
      | inl unparsed ↦ absurd (ground arith)
      | inr (r, parsed) ↦ ground arith
    ]

reveal_seed-status :
    (rt : Runtime) (sb : Switchboard) (account : AccountInfo) (slot : ℕ) (t t' : Tournament)
    → reveal_seed rt sb account slot t ≡ ok t'
    → t'.status ≡ t.status
unfolding reveal_seed
reveal_seed-status rt sb account slot t t' h =
    elim (Option-cases (sb.parse_randomness account.bytes)) [
      | inl unparsed ↦ absurd (ground arith)
      | inr (r, parsed) ↦ elim (Option-cases (sb.get_randomness r slot)) [
        | inl unresolved ↦ absurd (ground arith)
        | inr (value, got) ↦ ground arith
      ]
    ]

-- The first chunk starts from registration, and any other from where it is.
open_bracket-before :
    (keccak : Keccak) (sysvar : List ℕ) (t t' : Tournament)
    → open_bracket keccak sysvar t ≡ ok t'
    → t'.status ≡ TournamentStatus.pending_bracket_init
    → Leads t.status TournamentStatus.pending_bracket_init
unfolding open_bracket
open_bracket-before keccak sysvar t t' h pending = elim (Bool-cases (is_registration t.status)) [
  | inl e ↦
      let first : t.status ≡ TournamentStatus.registration = ground (arith, e) in
      subst (λ x. Leads x TournamentStatus.pending_bracket_init) (sym first) (along here opens)
  | inr e ↦
      let same : t ≡ t' = ground (arith, e, h) in
      subst (λ x. Leads x TournamentStatus.pending_bracket_init)
        (sym (ap (λ x. x.status) same ∙ pending)) here
]

module _ (rt : Runtime) (finder : Finder rt) (tp : TokenProgram) (sys : SystemProgram)
    (keccak : Keccak) (sb : Switchboard) where
  started_path :
      (c : StartContext) (ds : List MatchInitDescriptor) (s s' : Starting)
      → start_tournament rt sys keccak c ds s ≡ ok s'
      → Leads s.tournament.status s'.tournament.status
  started_path c ds s s' h =
      let (t, opened, chunk) = (start_tournament-IsChunk rt sys keccak c ds s s' h).1 in
      let begun =
        open_bracket-before keccak c.slot_hashes s.tournament t opened chunk.was_pending in
      elim chunk.started [
        | inl (full, active, at) ↦ path_between refl active (along begun starts)
        | inr (short, pending) ↦ path_between refl pending begun
      ]

  finalized_path :
      (c : FinalizeContext tp.Ledger) (p : Players) (call : Finalizer) (s : Settlement tp.Ledger)
      → run_finalizer rt tp c p call ≡ ok s
      → Leads c.tournament.status s.tournament.status
  finalized_path c p call s h =
      let (authority, (reported, outcome)) = run_finalizer-IsOutcome rt tp c p call s h in
      elim outcome [
        | inl won ↦ path_between reported.was_active won.completed (along here completes)
        | inr advanced ↦ path_between reported.was_active advanced.still_active here
      ]

  cancelled_path :
      (c : RefundContext) (s s' : Refunding tp.Ledger)
      → cancel_tournament rt tp c s ≡ ok s'
      → Leads s.tournament.status s'.tournament.status
  unfolding cancel_tournament
  cancelled_path c s s' h =
      path_between refl (cancel_tournament-again rt tp c s s' c.caller h).0
        (cancellable_path s.tournament.status (ground arith))

  partially_cancelled_path :
      (organizer : ℕ) (now : ℤ) (t t' : Tournament) (log log' : Log)
      → partial_cancel_tournament rt organizer now t log ≡ ok (t', log')
      → Leads t.status t'.status
  unfolding partial_cancel_tournament
  partially_cancelled_path organizer now t t' log log' h =
      let was_active : t.status ≡ TournamentStatus.active = ground arith in
      let now_cancelled : t'.status ≡ TournamentStatus.partial_cancelled = ground arith in
      path_between was_active now_cancelled (along here cancels_late)

  refunded_path :
      (c : RefundContext) (s s' : Refunding tp.Ledger)
      → partial_refund_chunk rt tp c s ≡ ok s'
      → Leads s.tournament.status s'.tournament.status
  unfolding partial_refund_chunk
  refunded_path c s s' h =
      let kept =
        (process_refunds-again rt tp c.vault c.organizer_token_account c.remaining_accounts s s'
          (ground arith)).0 in
      path_between refl (ap (λ t. t.status) kept) here

  Move-refines :
      {t t' : Tournament} → Move rt finder tp sys keccak sb t t' → Leads t.status t'.status
  Move-refines (by_join c t t' s s' h) =
      path_between refl (join_tournament-status rt finder tp sys c t s s' t' h) here
  Move-refines (by_request organizer account slot t t' h) =
      path_between refl (request_seed-status rt sb organizer account slot t t' h) here
  Move-refines (by_reveal account slot t t' h) =
      path_between refl (reveal_seed-status rt sb account slot t t' h) here
  Move-refines (by_start c ds s s' h) = started_path c ds s s' h
  Move-refines (by_finalizer c p call s h) = finalized_path c p call s h
  Move-refines (by_cancel c s s' h) = cancelled_path c s s' h
  Move-refines (by_partial_cancel organizer now t t' log log' h) =
      partially_cancelled_path organizer now t t' log log' h
  Move-refines (by_refund c s s' h) = refunded_path c s s' h

  -- However registrations, seed requests and reveals, starts, finalizers, cancellations and refunds that
  -- succeed follow one another, whoever sends them and with whatever other accounts, the status of
  -- the tournament has moved along a path of the graph `Edge`: from registration to pending, from
  -- pending to active, from active to completed, to cancelled from the first two, and to partially
  -- cancelled from active. No edge leaves the last three.
  pub History-refines :
      {t t' : Tournament} → History rt finder tp sys keccak sb t t' → Leads t.status t'.status
  History-refines untouched = here
  History-refines (after past last) = two_ways (History-refines past) (Move-refines last)
