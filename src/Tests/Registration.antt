-- ===== src/Tests/Registration.antt =====
-- The theorems on registration: a tournament of two with a deposit of 100 and a fee of 500, which
-- Alice and Bob join.
use bracket_chain_programs.Prelude.{
  List, ◌⊎◌, ◌↔◌, ◌<ℤ◌, ℕ, ◌+◌, ◌≡◌, refl, ◌≤◌, none, some, [], ◌∷◌, arith, pos, ◌==◌,
  if◌then◌else◌, All, IsDistinct,
}
use bracket_chain_programs.Errors.{Result, ok, err}
use bracket_chain_programs.State.Payout.{winner_takes_all, validate_custom, min_participants}
use bracket_chain_programs.State.Tournament.{Tournament, SupportedGame, SettlementMode}
use bracket_chain_programs.Runtime.{le_bytes}
use bracket_chain_programs.Accounts.{check_tournament, check_protocol_config}
use bracket_chain_programs.Store.{closed}
use bracket_chain_programs.Refund.Solvent.{owed}
use bracket_chain_programs.Registration.Init.{find_bump, init_account}
use bracket_chain_programs.Registration.Create.{
  CreateArgs, CreateContext, Registering, check_args, tournament_from, check_funding, fund_deposit,
  create_tournament,
}
use bracket_chain_programs.Registration.Join.{
  JoinContext, identity_of, check_open, participant_from, register, join_tournament,
}
use bracket_chain_programs.Registration.Created.{IsCreated, create_tournament-IsCreated}
use bracket_chain_programs.Registration.Joined.{IsJoined, join_tournament-IsJoined}
use bracket_chain_programs.Registration.Solvent.{
  Joins, nobody, joined, IsEnrolled, registration-IsSolvent,
}
use bracket_chain_programs.Registration.Attestation.{validate_attestation}
use bracket_chain_programs.Registration.Encoding.{
  Attestation, account_of, validate_attestation-encode,
}
use bracket_chain_programs.Tests.Ledger.{tokens, chain, transfer, move}
use bracket_chain_programs.Tests.Platform.{
  system, create_account, finder, find_address, creator, create_token,
}
use bracket_chain_programs.Tests.Bracket.{organizer, alice, bob, vault, config}

abbrev creation : CreateContext
creation = record {
  organizer = organizer;
  protocol_config = config;
  token_mint = 9;
  tournament = 1_106;
  vault = vault;
  organizer_token_account = some (record { key = 25; mint = 9; owner = organizer });
  now = pos 10;
}

abbrev arguments : CreateArgs
arguments = record {
  name = [];
  entry_fee = 500;
  max_participants = 2;
  payout_preset = winner_takes_all;
  registration_deadline = pos 100;
  organizer_deposit = 100;
  game = SupportedGame.manual;
  settlement_mode = SettlementMode.player_reported;
  dispute_window_secs = 3_600;
}

-- No account is in use; the organizer, Alice and Bob have tokens.
abbrev at_first : Registering (ℕ → ℕ)
at_first = record {
  store = λ k. record { owner = 0; lamports = 0; contents = closed };
  ledger = λ k. if k == 25 then 100 else if k == 21 then 500 else if k == 22 then 700 else 0;
  log = [];
}

abbrev state_or :
    Registering (ℕ → ℕ) → Result (Tournament × Registering (ℕ → ℕ)) → Registering (ℕ → ℕ)
state_or s (ok r) = r.1
state_or s (err e) = s

abbrev created : Registering (ℕ → ℕ)
created =
    state_or at_first
      (create_tournament chain finder tokens system creator creation arguments at_first)

abbrev fresh : Tournament
fresh = tournament_from creation arguments 0 0

creation_done :
    create_tournament chain finder tokens system creator creation arguments at_first
    ≡ ok (fresh, created)
unfolding create_tournament check_protocol_config init_account find_bump find_address create_account
    create_token check_funding check_args validate_custom min_participants fund_deposit transfer
    move le_bytes
creation_done = refl

create_tournament-IsCreated_example :
    IsCreated chain finder tokens system creator creation arguments fresh created
create_tournament-IsCreated_example =
    create_tournament-IsCreated chain finder tokens system creator creation arguments at_first
      created fresh (omega arith) creation_done

abbrev joining : ℕ → ℕ → JoinContext
joining player ata = record {
  player = player;
  protocol_config = config;
  participant = 1_269 + player;
  player_token_account = record { key = ata; mint = 9; owner = player };
  vault = vault;
  game_identity_attestation = none;
  now = pos 50;
}

abbrev with_count : ℕ → Tournament
with_count n = record fresh { participant_count = n }

abbrev with_alice : Registering (ℕ → ℕ)
with_alice =
    state_or created (join_tournament chain finder tokens system (joining alice 21) fresh created)

alice_joined :
    join_tournament chain finder tokens system (joining alice 21) fresh created
    ≡ ok (with_count 1, with_alice)
unfolding join_tournament check_tournament check_protocol_config init_account find_bump find_address
    create_account register identity_of check_open participant_from transfer move le_bytes
    create_tournament create_token check_funding check_args validate_custom min_participants
    fund_deposit tournament_from
alice_joined = refl

abbrev with_both : Registering (ℕ → ℕ)
with_both =
    state_or with_alice
      (join_tournament chain finder tokens system (joining bob 22) (with_count 1) with_alice)

bob_joined :
    join_tournament chain finder tokens system (joining bob 22) (with_count 1) with_alice
    ≡ ok (with_count 2, with_both)
unfolding join_tournament check_tournament check_protocol_config init_account find_bump find_address
    create_account register identity_of check_open participant_from transfer move le_bytes
    create_tournament create_token check_funding check_args validate_custom min_participants
    fund_deposit tournament_from
bob_joined = refl

join_tournament-IsJoined_example :
    IsJoined chain finder tokens system
      (joining bob 22)
      (with_count 1)
      with_alice
      (with_count 2)
      with_both
join_tournament-IsJoined_example =
    join_tournament-IsJoined chain finder tokens system (joining bob 22) (with_count 1) with_alice
      with_both (with_count 2) (omega arith) bob_joined

history :
    Joins chain finder tokens system fresh created (1_271 ∷ 1_270 ∷ []) (with_count 2) with_both
history =
    joined (joined nobody (joining alice 21) (with_count 1) with_alice (omega arith) alice_joined)
      (joining bob 22) (with_count 2) with_both (omega arith) bob_joined

registration-IsSolvent_example :
    ((with_count 2).participant_count ≡ 2)
    × (2 ≤ 2)
    × IsDistinct (1_271 ∷ 1_270 ∷ [])
    × All (IsEnrolled chain tokens fresh with_both.store) (1_271 ∷ 1_270 ∷ [])
    × (tokens.amount with_both.ledger vault
        ≡ owed
            (record {
              tournament = with_count 2;
              store = with_both.store;
              ledger = with_both.ledger;
              log = with_both.log;
            })
            (1_271 ∷ 1_270 ∷ []))
registration-IsSolvent_example =
    registration-IsSolvent chain finder tokens system creator creation arguments fresh
      (with_count 2) created with_both (1_271 ∷ 1_270 ∷ []) create_tournament-IsCreated_example
      history

-- The attestation of Alice, which expires at 1,000.
abbrev alices : Attestation
alices = record {
  discriminator = 2;
  nonce = alice;
  credential = 70;
  schema = 71;
  game = 1;
  steam_id_64 = 7_656;
  identity = 12_345;
  signer = 72;
  expiry = 1_000;
  token_account = 0;
}

abbrev answer : List ℕ × ℕ
answer = (le_bytes 32 12_345, 73)

validate_attestation-encode_example :
    (validate_attestation (account_of 73 0 alices) alice 70 71 (pos 50) ≡ ok answer) ↔ (
      (alice ≡ alices.nonce)
      × (70 ≡ alices.credential)
      × (71 ≡ alices.schema)
      × ((alices.expiry ≡ 0) ⊎ (pos 50 <ℤ pos alices.expiry))
      × (answer ≡ (le_bytes 32 alices.identity, 73)))
validate_attestation-encode_example =
    validate_attestation-encode alices
      (record {
        nonce = omega arith;
        credential = omega arith;
        schema = omega arith;
        expiry = omega arith;
      })
      73 0 alice 70 71 (pos 50) answer
