-- ===== src/State.antt =====
-- programs/bracket-chain/src/state: the accounts that the program keeps. A public key is the number
-- that its 32 bytes spell, the lowest first; `Pubkey::default()` is 0. Each account record has one
-- field beside the source's: `key`, the address of the account that holds it. Unsigned words are
-- natural numbers, Unix times are `ℤ`.
pub mod Payout
pub mod Tournament
pub mod MatchNode
pub mod Participant
pub mod ProtocolConfig
use bracket_chain_programs.Prelude.{ℕ}

abbrev pub Pubkey : Type 0
Pubkey = ℕ

abbrev pub default_key : Pubkey
default_key = 0
