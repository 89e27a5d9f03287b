-- ===== src/Registration/Gate.antt =====
-- What `identity_of`, the gate of `join_tournament`, asks of a player.
use bracket_chain_programs.Prelude.{
  ℕ, ◌≡◌, ◌≢◌, refl, subst, inl, inr, some, List, arith, Option-cases, get_elem?, replicate, slice,
  Bool, ◌==◌, leb, length,
}
use bracket_chain_programs.Errors.{
  ok, Result-cases, require, ◌>>◌, invalid_attestation_owner, malformed_attestation,
  attestation_wallet_mismatch, wrong_attestation_credential, wrong_attestation_schema,
}
use bracket_chain_programs.Constants.{sas_program_id}
use bracket_chain_programs.State.Tournament.{SupportedGame}
use bracket_chain_programs.Runtime.{AccountInfo, key_at}
use bracket_chain_programs.Registration.Join.{JoinContext, game_discriminant, identity_of}
use bracket_chain_programs.Registration.Attestation.{
  check_header, payload_bounds, identity_in, validate_attestation,
}

-- The checks of the header, on numbers.
read_checks :
    (owner service : ℕ) (long : Bool) (wallet player credential expected schema expected' : ℕ)
    → (do
      require (owner == service) invalid_attestation_owner
      require long malformed_attestation
      require (wallet == player) attestation_wallet_mismatch
      require (credential == expected) wrong_attestation_credential
      require (schema == expected') wrong_attestation_schema)
      ≡ ok tt
    → (owner ≡ service) × (wallet ≡ player) × (credential ≡ expected) × (schema ≡ expected')
read_checks o s l w p c e d e' h = ground (arith, h)

module _ (c : JoinContext) where
  -- An account of the attestation service for the player, under the protocol's credential, that the
  -- handler's reader accepts for the schema at `i`.
  pub record IsAttested (i : ℕ) (identity : List ℕ × ℕ) : Type 0 where
    pub attestation : AccountInfo
    pub handed_over : c.game_identity_attestation ≡ some attestation
    pub issued : attestation.owner ≡ sas_program_id
    pub for_player : key_at attestation 1 ≡ c.player
    pub credential : key_at attestation 33 ≡ c.protocol_config.sas_credential
    pub schema : ℕ
    pub schema_at : get_elem? c.protocol_config.sas_schemas i ≡ some schema
    pub of_schema : key_at attestation 65 ≡ schema
    pub accepted :
        validate_attestation attestation c.player c.protocol_config.sas_credential schema c.now
        ≡ ok identity
    pub address : identity.1 ≡ attestation.key

  -- The identity that a game asks for: none if results are entered by hand, and for every other game
  -- that of an attestation under the game's schema.
  abbrev pub IsGated : SupportedGame → List ℕ × ℕ → Type 0
  IsGated SupportedGame.manual identity = identity ≡ (replicate 32 0, 0)
  IsGated SupportedGame.dota2 identity = IsAttested 1 identity
  IsGated SupportedGame.cs2_faceit identity = IsAttested 2 identity
  IsGated SupportedGame.valorant identity = IsAttested 3 identity
  IsGated SupportedGame.lo_l identity = IsAttested 4 identity

  check_header-read :
      (attestation : AccountInfo) (schema : ℕ)
      → check_header attestation c.player c.protocol_config.sas_credential schema ≡ ok tt
      → (attestation.owner ≡ sas_program_id)
        × (key_at attestation 1 ≡ c.player)
        × (key_at attestation 33 ≡ c.protocol_config.sas_credential)
        × (key_at attestation 65 ≡ schema)
  unfolding check_header
  check_header-read attestation schema h =
      read_checks attestation.owner sas_program_id (leb 101 (length attestation.bytes))
        (key_at attestation 1) c.player (key_at attestation 33) c.protocol_config.sas_credential
        (key_at attestation 65) schema h

  validate_attestation-read :
      (attestation : AccountInfo) (schema : ℕ) (identity : List ℕ × ℕ)
      → validate_attestation attestation c.player c.protocol_config.sas_credential schema c.now
        ≡ ok identity
      → (check_header attestation c.player c.protocol_config.sas_credential schema ≡ ok tt)
        × (identity.1 ≡ attestation.key)
  unfolding validate_attestation
  validate_attestation-read attestation schema identity h =
      let header = check_header attestation c.player c.protocol_config.sas_credential schema in
      elim (Result-cases header) [
        | inr (x, failed) ↦ absurd (ground arith)
        | inl (_, passed) ↦ elim (Result-cases (payload_bounds attestation.bytes)) [
          | inr (x, failed) ↦ absurd (ground arith)
          | inl ((end, start), bounds) ↦
              elim (Result-cases (identity_in (slice attestation.bytes 101 end))) [
                | inr (x, failed) ↦ absurd (ground arith)
                | inl (hash, read) ↦ (passed, ground arith)
              ]
        ]
      ]

  validate_attestation-IsAttested :
      (i : ℕ) (attestation : AccountInfo) (schema : ℕ) (identity : List ℕ × ℕ)
      → c.game_identity_attestation ≡ some attestation
      → get_elem? c.protocol_config.sas_schemas i ≡ some schema
      → validate_attestation attestation c.player c.protocol_config.sas_credential schema c.now
        ≡ ok identity
      → IsAttested i identity
  validate_attestation-IsAttested i attestation schema identity given found h =
      let (passed, address) = validate_attestation-read attestation schema identity h in
      let (issued, player, credential, of_schema) = check_header-read attestation schema passed in
      record {
        attestation = attestation;
        handed_over = given;
        issued = issued;
        for_player = player;
        credential = credential;
        schema = schema;
        schema_at = found;
        of_schema = of_schema;
        accepted = h;
        address = address;
      }

  identity_of-IsAttested :
      (game : SupportedGame) (i : ℕ) (identity : List ℕ × ℕ)
      → game_discriminant game ≡ i
      → game ≢ SupportedGame.manual
      → identity_of c game ≡ ok identity
      → IsAttested i identity
  unfolding identity_of
  identity_of-IsAttested game i identity e real h =
      elim (Option-cases c.game_identity_attestation) [
        | inl missing ↦ absurd (ground arith)
        | inr (attestation, given) ↦
            elim (Option-cases (get_elem? c.protocol_config.sas_schemas (game_discriminant game))) [
              | inl missing ↦ absurd (ground arith)
              | inr (schema, found) ↦
                  validate_attestation-IsAttested i attestation schema identity given
                    (subst (λ k. get_elem? c.protocol_config.sas_schemas k ≡ some schema) e found)
                    (ground arith)
            ]
      ]

  pub identity_of-IsGated :
      (game : SupportedGame) (identity : List ℕ × ℕ)
      → identity_of c game ≡ ok identity
      → IsGated game identity
  unfolding identity_of
  identity_of-IsGated SupportedGame.manual identity h = ground (arith, h)
  identity_of-IsGated SupportedGame.dota2 identity h =
      identity_of-IsAttested SupportedGame.dota2 1 identity refl (λ e. ground (arith, e)) h
  identity_of-IsGated SupportedGame.cs2_faceit identity h =
      identity_of-IsAttested SupportedGame.cs2_faceit 2 identity refl (λ e. ground (arith, e)) h
  identity_of-IsGated SupportedGame.valorant identity h =
      identity_of-IsAttested SupportedGame.valorant 3 identity refl (λ e. ground (arith, e)) h
  identity_of-IsGated SupportedGame.lo_l identity h =
      identity_of-IsAttested SupportedGame.lo_l 4 identity refl (λ e. ground (arith, e)) h
