-- ===== src/Store.antt =====
-- The accounts that an instruction takes as `remaining_accounts` and reads and writes in place. The
-- same account may be handed over several times, so they live in a store by address.
use bracket_chain_programs.Prelude.{
  ℕ, Option, none, some, List, [], ◌==◌, leb, if◌then◌else◌, le_number, slice, length,
}
use bracket_chain_programs.State.MatchNode.{MatchNode}
use bracket_chain_programs.State.Participant.{Participant}
use bracket_chain_programs.Runtime.{AccountInfo}

-- What an account holds: a record of this program, with its 8 bytes of discriminator in front, or
-- any other bytes. `closed` has none.
pub data Contents : Type 0 where
  closed : Contents
  of_participant : Participant → Contents
  of_match : MatchNode → Contents
  of_bytes : List ℕ → Contents

pub record Stored : Type 0 where
  pub owner : ℕ
  pub lamports : ℕ
  pub contents : Contents

abbrev pub Store : Type 0
Store = ℕ → Stored

abbrev pub write : Store → ℕ → Stored → Store
write store k a j = if j == k then a else store j

-- `Participant::try_deserialize`
abbrev pub participant_in : Contents → Option Participant
participant_in (of_participant p) = some p
participant_in closed = none
participant_in (of_match m) = none
participant_in (of_bytes b) = none

-- `Pubkey::try_from(&data[8..40])`, if there are 40 bytes: the first field of a record.
abbrev pub embedded_key : Contents → Option ℕ
embedded_key closed = none
embedded_key (of_participant p) = some p.tournament
embedded_key (of_match m) = some m.tournament
embedded_key (of_bytes b) = if leb 40 (length b) then some (le_number (slice b 8 40)) else none

-- The account as `validate_token_account` reads it. A record of this program is never owned by the
-- token program, and the check of the owner comes before the bytes are read.
abbrev pub bytes_in : Contents → List ℕ
bytes_in (of_bytes b) = b
bytes_in closed = []
bytes_in (of_participant p) = []
bytes_in (of_match m) = []

abbrev pub info_at : Store → ℕ → AccountInfo
info_at store k = record {
  key = k;
  owner = (store k).owner;
  lamports = (store k).lamports;
  bytes = bytes_in (store k).contents;
}
