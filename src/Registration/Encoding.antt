-- ===== src/Registration/Encoding.antt =====
-- The layout of an attestation account, and that `validate_attestation` reads it back.
use bracket_chain_programs.Prelude.{
  ℕ, zero, suc, ◌*◌, ◌/◌, ◌^◌, ◌<◌, ◌≡◌, refl, sym, ap, ◌∙◌, ◌⊎◌, ◌↔◌, true, List, [], ◌∷◌, ◌++◌,
  arith, ◌==◌, leb, length, le_number, slice, ℤ, pos, ◌<ℤ◌,
}
use bracket_chain_programs.Errors.{
  Result, ok, ◌>>◌, require, attestation_expired, attestation_wallet_mismatch,
  wrong_attestation_credential, wrong_attestation_schema, >>=-eq-ok,
}
use bracket_chain_programs.Constants.{sas_program_id}
use bracket_chain_programs.Runtime.{AccountInfo, key_at, le_bytes}
use bracket_chain_programs.Registration.Attestation.{
  i64_from, is_unexpired, identity_in, check_header, payload_bounds, validate_attestation,
}

-- What an attestation says. The identity is the number that its 32 bytes spell.
pub record Attestation : Type 0 where
  pub discriminator : ℕ
  pub nonce : ℕ
  pub credential : ℕ
  pub schema : ℕ
  pub game : ℕ
  pub steam_id_64 : ℕ
  pub identity : ℕ
  pub signer : ℕ
  pub expiry : ℕ
  pub token_account : ℕ

-- The numbers fit their words, and the expiry is a time from 1970 on.
pub record Fits (a : Attestation) : Type 0 where
  pub nonce : a.nonce < 256 ^ 32
  pub credential : a.credential < 256 ^ 32
  pub schema : a.schema < 256 ^ 32
  pub expiry : a.expiry < 2 ^ 63

abbrev pub payload_of : Attestation → List ℕ
payload_of a = (a.game ∷ []) ++ le_bytes 8 a.steam_id_64 ++ le_bytes 4 32 ++ le_bytes 32 a.identity

unfoldable pub encode : Attestation → List ℕ
encode a =
    (a.discriminator ∷ [])
    ++ le_bytes 32 a.nonce
    ++ le_bytes 32 a.credential
    ++ le_bytes 32 a.schema
    ++ le_bytes 4 45
    ++ payload_of a
    ++ le_bytes 32 a.signer
    ++ le_bytes 8 a.expiry
    ++ le_bytes 32 a.token_account

-- The account of the attestation service that holds it.
abbrev pub account_of : ℕ → ℕ → Attestation → AccountInfo
account_of key lamports a = record {
  key = key;
  owner = sas_program_id;
  lamports = lamports;
  bytes = encode a;
}

le_number-le_bytes : (n v : ℕ) → v < 256 ^ n → le_number (le_bytes n v) ≡ v
unfolding le_bytes
le_number-le_bytes zero v h = omega arith
le_number-le_bytes (suc n) v h =
    let power : 256 ^ suc n ≡ 256 * 256 ^ n = omega arith in
    let rest = le_number-le_bytes n (v / 256) (omega (arith, h, power)) in omega (arith, rest)

i64_from-pos : (b : List ℕ) (n : ℕ) → le_number b ≡ n → n < 2 ^ 63 → i64_from b ≡ pos n
i64_from-pos b n e h = ground arith

-- The checks of the header, and the one of the expiry, on numbers.
abbrev keys_match : ℕ → ℕ → ℕ → ℕ → ℕ → ℕ → Result (Unit {0})
keys_match nonce credential schema player expected_credential expected_schema =
    require (nonce == player) attestation_wallet_mismatch
    >> (require (credential == expected_credential) wrong_attestation_credential
        >> require (schema == expected_schema) wrong_attestation_schema)

keys_match_iff :
    (n c s p c' s' : ℕ) → (keys_match n c s p c' s' ≡ ok tt) ↔ ((p ≡ n) × (c' ≡ c) × (s' ≡ s))
keys_match_iff n c s p c' s' = (λ h. ground (arith, h), λ e. ground (arith, e))

unexpired_iff :
    {A : Type 0} (expiry : ℕ) (now : ℤ) (x r : A)
    → ((require (is_unexpired (pos expiry) now) attestation_expired >> ok x) ≡ ok r)
      ↔ (((expiry ≡ 0) ⊎ (now <ℤ pos expiry)) × (r ≡ x))
unexpired_iff expiry now x r = (λ h. ground (arith, h), λ e. ground (arith, e))

module _ (a : Attestation) where
  slices :
      (slice (encode a) 1 33 ≡ le_bytes 32 a.nonce)
      × (slice (encode a) 33 65 ≡ le_bytes 32 a.credential)
      × (slice (encode a) 65 97 ≡ le_bytes 32 a.schema)
      × (slice (encode a) 178 186 ≡ le_bytes 8 a.expiry)
  unfolding encode le_bytes
  slices = (refl, refl, refl, refl)

  encode-payload_bounds : payload_bounds (encode a) ≡ ok (146, 178)
  unfolding encode le_bytes payload_bounds
  encode-payload_bounds = refl

  encode-identity_in : identity_in (slice (encode a) 101 146) ≡ ok (le_bytes 32 a.identity)
  unfolding encode le_bytes identity_in
  encode-identity_in = refl

  encode-length : leb 101 (length (encode a)) ≡ true
  unfolding encode le_bytes
  encode-length = refl

  module _ (fits : Fits a) (key lamports : ℕ) where
    header_keys :
        (key_at (account_of key lamports a) 1 ≡ a.nonce)
        × (key_at (account_of key lamports a) 33 ≡ a.credential)
        × (key_at (account_of key lamports a) 65 ≡ a.schema)
    header_keys =
        let (first, second, third, _) = slices in
        (
          ap le_number first ∙ le_number-le_bytes 32 a.nonce fits.nonce,
          ap le_number second ∙ le_number-le_bytes 32 a.credential fits.credential,
          ap le_number third ∙ le_number-le_bytes 32 a.schema fits.schema,
        )

    encode-expiry : i64_from (slice (encode a) 178 186) ≡ pos a.expiry
    encode-expiry =
        let (_, _, _, last) = slices in
        let value : le_number (slice (encode a) 178 186) ≡ a.expiry =
          ap le_number last ∙ le_number-le_bytes 8 a.expiry (omega (arith, fits.expiry)) in
        i64_from-pos (slice (encode a) 178 186) a.expiry value fits.expiry

    -- What remains behind the header.
    abbrev accept : ℤ → Result (List ℕ × ℕ)
    accept now =
        require (is_unexpired (pos a.expiry) now) attestation_expired
        >> ok (le_bytes 32 a.identity, key)

    validate_attestation-accept :
        (player credential schema : ℕ) (now : ℤ)
        → validate_attestation (account_of key lamports a) player credential schema now
          ≡ (check_header (account_of key lamports a) player credential schema >> accept now)
    unfolding validate_attestation
    validate_attestation-accept player credential schema now =
        rw (encode-payload_bounds, encode-identity_in, encode-expiry) refl

    check_header-keys_match :
        (player credential schema : ℕ)
        → check_header (account_of key lamports a) player credential schema
          ≡ keys_match a.nonce a.credential a.schema player credential schema
    unfolding check_header
    check_header-keys_match player credential schema =
        let (first, second, third) = header_keys in rw (encode-length, first, second, third) refl

    -- An account of the attestation service that holds an attestation is accepted for exactly its
    -- own wallet, credential and schema, and until its expiry, if it has one; the answer is then its
    -- identity and its address.
    pub validate_attestation-encode :
        (player credential schema : ℕ) (now : ℤ) (r : List ℕ × ℕ)
        → (validate_attestation (account_of key lamports a) player credential schema now ≡ ok r) ↔ (
            (player ≡ a.nonce)
            × (credential ≡ a.credential)
            × (schema ≡ a.schema)
            × ((a.expiry ≡ 0) ⊎ (now <ℤ pos a.expiry))
            × (r ≡ (le_bytes 32 a.identity, key)))
    validate_attestation-encode player credential schema now r =
        let split =
          validate_attestation-accept player credential schema now
          ∙ ap (λ c. c >> accept now) (check_header-keys_match player credential schema) in
        let (read, pass) = keys_match_iff a.nonce a.credential a.schema player credential schema in
        let (taken, granted) = unexpired_iff a.expiry now (le_bytes 32 a.identity, key) r in
        (
          λ h.
              let (_, passed, accepted) =
                >>=-eq-ok (keys_match a.nonce a.credential a.schema player credential schema)
                  (λ _. accept now) (sym split ∙ h) in
              let keys = read passed in
              let (in_time, answer) = taken accepted in (keys.0, keys.1, keys.2, in_time, answer),
          λ e. split ∙ ap (λ c. c >> accept now) (pass (e.0, e.1, e.2)) ∙ granted (e.3, e.4),
        )
