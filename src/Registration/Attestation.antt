-- ===== src/Registration/Attestation.antt =====
-- `validate_attestation` of join_tournament.rs: the bytes of an attestation account.
use bracket_chain_programs.Prelude.{
  ℕ, ◌+◌, ◌-◌, ◌^◌, Bool, ◌||◌, List, ◌==◌, ltb, leb, ltb_ℤ, if◌then◌else◌, length, le_number,
  slice, checked_add, ℤ, pos, negsuc,
}
use bracket_chain_programs.Errors.{
  Result, ok, code, invalid_attestation_owner, malformed_attestation, attestation_wallet_mismatch,
  wrong_attestation_credential, wrong_attestation_schema, attestation_expired, ◌>>=◌, ◌>>◌, require,
  ok_or,
}
use bracket_chain_programs.Constants.{sas_program_id}
use bracket_chain_programs.Runtime.{AccountInfo, key_at}

-- `i64::from_le_bytes`
abbrev pub i64_from : List ℕ → ℤ
i64_from b = let n = le_number b in if ltb n (2 ^ 63) then pos n else negsuc (2 ^ 64 - n - 1)

-- The comparison `expiry == 0 || now < expiry`.
abbrev pub is_unexpired : ℤ → ℤ → Bool
is_unexpired (pos n) now = n == 0 || ltb_ℤ now (pos n)
is_unexpired (negsuc n) now = ltb_ℤ now (negsuc n)

-- The payload: the game, the Steam ID, and the identity's 32 bytes behind their length.
unfoldable pub identity_in : List ℕ → Result (List ℕ)
identity_in payload = do
  require (leb 13 (length payload)) malformed_attestation
  require (le_number (slice payload 9 13) == 32) malformed_attestation
  require (leb 45 (length payload)) malformed_attestation
  ok (slice payload 13 45)

-- The three keys of the header.
unfoldable pub check_header : AccountInfo → ℕ → ℕ → ℕ → Result (Unit {0})
check_header att player expected_credential expected_schema = do
  require (att.owner == sas_program_id) invalid_attestation_owner
  require (leb 101 (length att.bytes)) malformed_attestation
  require (key_at att 1 == player) attestation_wallet_mismatch
  require (key_at att 33 == expected_credential) wrong_attestation_credential
  require (key_at att 65 == expected_schema) wrong_attestation_schema

-- The length of the payload, and where the expiry starts.
unfoldable pub payload_bounds : List ℕ → Result (ℕ × ℕ)
payload_bounds att_bytes = do
  payload_end ←
      ok_or (checked_add 64 101 (le_number (slice att_bytes 97 101))) (code malformed_attestation)
  expiry_start ← ok_or (checked_add 64 payload_end 32) (code malformed_attestation)
  require (leb (expiry_start + 8) (length att_bytes)) malformed_attestation
  ok (payload_end, expiry_start)

unfoldable pub validate_attestation : AccountInfo → ℕ → ℕ → ℕ → ℤ → Result (List ℕ × ℕ)
validate_attestation att player expected_credential expected_schema now = do
  check_header att player expected_credential expected_schema
  (payload_end, expiry_start) ← payload_bounds att.bytes
  identity ← identity_in (slice att.bytes 101 payload_end)
  require (is_unexpired (i64_from (slice att.bytes expiry_start (expiry_start + 8))) now)
      attestation_expired
  ok (identity, att.key)
