-- ===== src/Registration/Solvent.antt =====
-- After registration the vault holds exactly what the refunds owe.
use bracket_chain_programs.Prelude.{
  ℕ, ◌+◌, ◌*◌, ◌≤◌, ◌≡◌, refl, sym, ap, subst, ◌∙◌, ◌≢◌, inl, inr, false, List, [], ◌∷◌, ◌++◌,
  arith, Option-cases, All, IsDistinct, length,
}
use bracket_chain_programs.Errors.{ok}
use bracket_chain_programs.Constants.{vault_seed}
use bracket_chain_programs.State.Tournament.{Tournament}
use bracket_chain_programs.State.Participant.{Participant}
use bracket_chain_programs.Runtime.{Runtime, TokenProgram, check_seeds, le_bytes}
use bracket_chain_programs.Accounts.{check_vault}
use bracket_chain_programs.Store.{Store, closed, of_participant}
use bracket_chain_programs.Platform.{SystemProgram, Finder, TokenCreator}
use bracket_chain_programs.Refund.Solvent.{unrefunded, deposit_owed, owed}
use bracket_chain_programs.Registration.Create.{
  CreateArgs, CreateContext, Registering, tournament_from,
}
use bracket_chain_programs.Registration.Join.{JoinContext, participant_from, join_tournament}
use bracket_chain_programs.Registration.Created.{IsCreated}
use bracket_chain_programs.Registration.Joined.{IsJoined, join_tournament-IsJoined}

check_seeds_same :
    (rt : Runtime) (seeds : List (List ℕ)) (bump k j : ℕ)
    → check_seeds rt seeds bump k ≡ ok tt
    → check_seeds rt seeds bump j ≡ ok tt
    → k ≡ j
check_seeds_same rt seeds bump k j h h' =
    elim (Option-cases (rt.create_program_address (seeds ++ (bump ∷ []) ∷ []) rt.program_id)) [
      | inl no_address ↦ absurd (ground arith)
      | inr (address, e) ↦ ground arith
    ]

-- A history of successful registrations, none paid from the vault, with the participants' accounts,
-- the last one first.
pub data Joins (rt : Runtime) (finder : Finder rt) (tp : TokenProgram) (sys : SystemProgram)
    (t : Tournament) (s : Registering tp.Ledger)
    : List ℕ → Tournament → Registering tp.Ledger → Type 1 where
  nobody : Joins rt finder tp sys t s [] t s
  joined :
      {ks : List ℕ} {t1 : Tournament} {s1 : Registering tp.Ledger}
      (before : Joins rt finder tp sys t s ks t1 s1) (c : JoinContext) (t2 : Tournament)
      (s2 : Registering tp.Ledger)
      → c.player_token_account.key ≢ c.vault
      → join_tournament rt finder tp sys c t1 s1 ≡ ok (t2, s2)
      → Joins rt finder tp sys t s (c.participant ∷ ks) t2 s2

module _ (rt : Runtime) (tp : TokenProgram) (t0 : Tournament) where
  -- The account holds an unrefunded participant of the tournament.
  pub record IsEnrolled (store : Store) (k : ℕ) : Type 0 where
    pub participant : Participant
    pub owned : (store k).owner ≡ rt.program_id
    pub stored : (store k).contents ≡ of_participant participant
    pub registered : participant.tournament ≡ t0.key
    pub unpaid : participant.refund_paid ≡ false

  -- The participants in `ks` are enrolled and counted, and the vault holds their fees.
  pub record IsFunded (ks : List ℕ) (t : Tournament) (s : Registering tp.Ledger) : Type 0 where
    pub counted : t ≡ record t0 { participant_count = length ks }
    pub room : length ks ≤ t0.max_participants
    pub distinct : IsDistinct ks
    pub enrolled : All (IsEnrolled s.store) ks
    pub funded : tp.amount s.ledger t0.vault ≡ t0.organizer_deposit + t0.entry_fee * length ks

  unrefunded-length :
      (store : Store) (ks : List ℕ) → All (IsEnrolled store) ks → unrefunded store ks ≡ length ks
  unrefunded-length store [] all = refl
  unrefunded-length store (k ∷ ks) all =
      let rest = unrefunded-length store ks all.1 in
      ground (arith, rest, all.0.stored, all.0.unpaid)

  -- A new account is none of those enrolled, and leaves them so.
  new_apart :
      (store store' : Store) (new : ℕ) (ks : List ℕ)
      → (store new).contents ≡ closed
      → ((k : ℕ)
          → k ≢ new
          → ((store' k).owner ≡ (store k).owner) × ((store' k).contents ≡ (store k).contents))
      → All (IsEnrolled store) ks
      → All (λ k. new ≢ k) ks × All (IsEnrolled store') ks
  new_apart store store' new [] unused others all = (tt, tt)
  new_apart store store' new (k ∷ ks) unused others all =
      let rest = new_apart store store' new ks unused others all.1 in
      let ne : new ≢ k = λ e. ground (arith, e, unused, all.0.stored) in
      let (same_owner, same_contents) = others k (λ e. ne (sym e)) in
      (
        (ne, rest.0),
        (
          record {
            participant = all.0.participant;
            owned = same_owner ∙ all.0.owned;
            stored = same_contents ∙ all.0.stored;
            registered = all.0.registered;
            unpaid = all.0.unpaid;
          },
          rest.1,
        ),
      )

  module _ (finder : Finder rt) (sys : SystemProgram) where
    IsFunded-joined :
        (ks : List ℕ) (t1 t2 : Tournament) (s1 s2 : Registering tp.Ledger) (c : JoinContext)
        → check_seeds rt (vault_seed ∷ le_bytes 32 t0.key ∷ []) t0.vault_bump t0.vault ≡ ok tt
        → IsFunded ks t1 s1
        → IsJoined rt finder tp sys c t1 s1 t2 s2
        → IsFunded (c.participant ∷ ks) t2 s2
    unfolding participant_from
    IsFunded-joined ks t1 t2 s1 s2 c derived f i =
        let vault_found : check_seeds rt (vault_seed ∷ le_bytes 32 t0.key ∷ []) t0.vault_bump
              c.vault
            ≡ ok tt =
          subst
            (λ x. check_seeds rt (vault_seed ∷ le_bytes 32 x.key ∷ []) x.vault_bump c.vault ≡ ok tt)
            f.counted i.vault_at_address in
        let same_vault =
          check_seeds_same rt (vault_seed ∷ le_bytes 32 t0.key ∷ []) t0.vault_bump c.vault t0.vault
            vault_found derived in
        let (apart, kept) =
          new_apart s1.store s2.store c.participant ks i.unused i.others f.enrolled in
        let paid = i.paid in
        let fee : t1.entry_fee ≡ t0.entry_fee = ap (λ x. x.entry_fee) f.counted in
        let had_room : length ks + 1 ≤ t0.max_participants = omega (
          arith,
          i.had_room,
          ap (λ x. x.participant_count) f.counted,
          ap (λ x. x.max_participants) f.counted,
        ) in
        let one_more : length ks + 1 ≡ length (c.participant ∷ ks) = omega arith in
        let paid' : tp.amount s2.ledger t0.vault ≡ tp.amount s1.ledger t0.vault + t0.entry_fee =
          subst (λ v. tp.amount s2.ledger v ≡ tp.amount s1.ledger v + t0.entry_fee) same_vault
            (paid ∙ ap (λ n. tp.amount s1.ledger c.vault + n) fee) in
        record {
          counted =
              subst (λ x. t2 ≡ record x { participant_count = x.participant_count + 1 }) f.counted
                i.counted
              ∙ ap (λ n. record t0 { participant_count = n }) one_more;
          room = omega (arith, had_room);
          distinct = (apart, f.distinct);
          enrolled = (
            record {
              participant = participant_from c t1 i.identity i.bump;
              owned = i.owned;
              stored = i.stored;
              registered = ap (λ x. x.key) f.counted;
              unpaid = refl;
            },
            kept,
          );
          funded = grind (arith, paid', f.funded);
        }

    Joins-IsFunded :
        (s0 : Registering tp.Ledger) {ks : List ℕ} {t : Tournament} {s : Registering tp.Ledger}
        → check_seeds rt (vault_seed ∷ le_bytes 32 t0.key ∷ []) t0.vault_bump t0.vault ≡ ok tt
        → IsFunded [] t0 s0
        → Joins rt finder tp sys t0 s0 ks t s
        → IsFunded ks t s
    Joins-IsFunded s0 derived start nobody = start
    Joins-IsFunded s0 derived start (joined {ks} {t1} {s1} before c t2 s2 outside done) =
        IsFunded-joined ks t1 t2 s1 s2 c derived (Joins-IsFunded s0 derived start before)
          (join_tournament-IsJoined rt finder tp sys c t1 s1 s2 t2 outside done)

-- From a tournament as `create_tournament` leaves it, every history of registrations that are not
-- paid from the vault enrols distinct participants, at most as many as the tournament admits, each
-- unrefunded and counted; and the vault holds exactly what the refunds owe to them and to the
-- organizer.
pub registration-IsSolvent :
    (rt : Runtime) (finder : Finder rt) (tp : TokenProgram) (sys : SystemProgram)
    (creator : TokenCreator tp) (c : CreateContext) (a : CreateArgs) (t0 t : Tournament)
    (s0 s : Registering tp.Ledger) (ks : List ℕ)
    → IsCreated rt finder tp sys creator c a t0 s0
    → Joins rt finder tp sys t0 s0 ks t s
    → (t.participant_count ≡ length ks)
      × (length ks ≤ a.max_participants)
      × IsDistinct ks
      × All (IsEnrolled rt tp t0 s.store) ks
      × (tp.amount s.ledger c.vault
          ≡ owed (record { tournament = t; store = s.store; ledger = s.ledger; log = s.log }) ks)
unfolding check_vault tournament_from
registration-IsSolvent rt finder tp sys creator c a t0 t s0 s ks i history =
    let same_vault : t0.vault ≡ c.vault = ap (λ x. x.vault) i.written in
    let derived : check_seeds rt (vault_seed ∷ le_bytes 32 t0.key ∷ []) t0.vault_bump t0.vault
        ≡ ok tt =
      subst (λ v. check_seeds rt (vault_seed ∷ le_bytes 32 t0.key ∷ []) t0.vault_bump v ≡ ok tt)
        (sym same_vault) (ground (arith, i.vault_at_address)) in
    let deposit : t0.organizer_deposit ≡ a.organizer_deposit =
      ap (λ x. x.organizer_deposit) i.written in
    let start : IsFunded rt tp t0 [] t0 s0 = record {
      counted =
          ap (λ n. record t0 { participant_count = n }) (ap (λ x. x.participant_count) i.written);
      room = omega arith;
      distinct = tt;
      enrolled = tt;
      funded =
          subst (λ v. tp.amount s0.ledger v ≡ t0.organizer_deposit + t0.entry_fee * 0)
            (sym same_vault) (omega (arith, i.deposited, deposit));
    } in
    let debt =
      owed (record { tournament = t; store = s.store; ledger = s.ledger; log = s.log }) ks in
    let f = Joins-IsFunded rt tp t0 finder sys s0 derived start history in
    let count = unrefunded-length rt tp t0 s.store ks f.enrolled in
    let fee : t.entry_fee ≡ t0.entry_fee = ap (λ x. x.entry_fee) f.counted in
    let back : deposit_owed t ≡ t0.organizer_deposit = ground (
      arith,
      ap (λ x. x.organizer_deposit_refunded) f.counted,
      ap (λ x. x.organizer_deposit_refunded) i.written,
      ap (λ x. x.organizer_deposit) f.counted,
    ) in
    (
      ap (λ x. x.participant_count) f.counted,
      subst (λ n. length ks ≤ n) (ap (λ x. x.max_participants) i.written) f.room,
      f.distinct,
      f.enrolled,
      subst (λ v. tp.amount s.ledger v ≡ debt) same_vault
          (f.funded ∙ grind (arith, count, fee, back)),
    )
