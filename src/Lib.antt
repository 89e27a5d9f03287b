-- ===== src/Lib.antt =====
-- BracketChain is a program for the Solana runtime that runs single-elimination tournaments for
-- prizes in a token. It keeps one account for each tournament, each match, and each participant,
-- and a token account, the vault, that holds the entry fees and the organizer's deposit. An
-- instruction reads and writes some of them, all or nothing.
--
-- How the parts interact. A match becomes active when both of its players are known. In a tournament
-- of the organizer's, `report_result` finalizes it. In the other modes a player proposes a winner,
-- the other player confirms or disputes, and the finalize instructions settle the proposal when its
-- window has passed. An oracle's feed, bound to a match that was committed to a lobby, proposes in the
-- same way. They all end in `finalize_match`, which moves the winner to the parent match
-- or, on the final, pays out the vault. A tournament that does not finish is cancelled, and the fees
-- are paid back in chunks; what is left of a tournament that is over is closed. Before that,
-- participants join and pay the fee, and the first calls of the start draw the bracket from a shuffle
-- of the participants that a random seed drives.
--
-- The files, and what they model (paths under programs/bracket-chain/src):
--   Prelude         native numbers, words, integers and lists, with the tests that code makes
--   Errors          errors.rs; `Result`, its bind, `require!` and `ok_or`
--   Constants       constants.rs
--   State           state/*.rs: one record for each account, with its address in `key`; PayoutPreset
--                   and its methods in State/Payout
--   Events          events.rs, and the log that `emit!` writes to
--   Runtime         what the program calls: `Runtime` (derivation of addresses) and `TokenProgram`
--                   are parameters; `validate_token_account` of settlement.rs
--   Accounts        the `#[account(…)]` constraints that instructions share
--   Settlement      instructions/settlement.rs: `split_placements` in Split, `advance_winner` and
--                   `credit_match_stats` in Advance, `distribute_prizes` in Prizes, `finalize_match`
--                   in Finalize
--   Proposal        instructions/propose_result.rs and dispute_result.rs in Envelope;
--                   report_result.rs, confirm_result.rs, claim_result.rs, force_claim_disputed.rs,
--                   resolve_dispute.rs and settle_final.rs in Finalizers, as one type in Calls, and
--                   all that is done to one match as one relation in Steps
--   Store           accounts by address, for instructions that take a list of them
--   Refund          instructions/cancel_tournament.rs, partial_cancel_tournament.rs and
--                   partial_refund_chunk.rs, over their common loop in Process
--   Seeding         seeding.rs: the shuffle, and the pairs of the first round
--   Platform        the system program, the hash function, the search for addresses, and the creation
--                   and the closing of accounts, as parameters
--   Registration    instructions/create_tournament.rs in Create, join_tournament.rs in Join, and its
--                   `validate_attestation` in Attestation, with the layout of the account in
--                   Encoding
--   Start           instructions/start_tournament.rs: the seed and the size of the bracket in Seed,
--                   `validate_descriptor_against_seed` in Descriptor, the loop in Handler
--   Admin           instructions/initialize_protocol.rs in Initialize, migrate_protocol_config.rs and
--                   migrate_v1_tournament.rs in Migrate, with the growth of accounts as a parameter
--   Closing         instructions/close_tournament.rs
--   Switchboard     the feeds and the randomness of Switchboard On-Demand, as a parameter
--   Oracle          instructions/commit_match_lobby.rs and bind_match_feed.rs in Lobby,
--                   propose_result_oracle.rs in Propose, set_oracle_config.rs and set_sas_config.rs in
--                   Config
--   Randomness      instructions/request_seed.rs and reveal_seed.rs
--   Lifecycle       the instructions that write a tournament as one relation, the graph of the
--                   statuses (TournamentStatus of state/tournament.rs), and in Refines its refinement
--   Tests           a concrete token program and runtime, and the theorems at concrete accounts
--
-- How code is modelled. A handler is a function from its accounts, the clock, the token program's
-- ledger and the log to a result that holds what it writes. An error carries no state, since the
-- runtime undoes a failed transaction. Where the handler has constraints on its accounts, the
-- function without them has a shorter name (`confirm` for the body of `confirm_result`). A public
-- key is the number that its bytes spell. Unsigned words are natural numbers with the source's
-- checked operations (`checked_add 64`), and `as u64` is a remainder; the sum of a round and 1, which
-- the source leaves unchecked, panics on overflow. Unix times are integers with the bounds of i64.
-- Loops over slots, amounts and accounts are structural recursion, so no fuel is needed; the loop
-- that counts trailing zeros looks at the 16 bits of a bracket's size, and the next power of two is
-- sought among the 16 that a word has.
--
-- What is assumed. Of the token program: a balance fits 64 bits, a transfer between two accounts
-- moves exactly its amount and nothing else, one that the source may spend, that its balance covers
-- and that does not overflow the target goes through, and a new token account is empty. Of the
-- system program: it creates an account only where none is in use, for the owner that is named, and
-- changes the owner and the contents of no other. Of the runtime: an address that it finds is the
-- one that the seeds and the bump give, and an account that grows is filled with zeros. Of
-- Switchboard: a feed has a value only if enough of its submissions are within the staleness bound,
-- and a randomness only in the slot of its reveal. Nothing is assumed of the hash function or of the
-- framework's closing of accounts.
--
-- What is not modelled: lib.rs, which only forwards to the handlers; the scripts and the tests. The
-- compute budget is left out, and so is the check of the discriminator that the account framework
-- makes. The sizes of new accounts are the numbers that it derives from the fields.
pub mod Prelude
pub mod Errors
pub mod Constants
pub mod State
pub mod Events
pub mod Runtime
pub mod Accounts
pub mod Settlement
pub mod Proposal
pub mod Store
pub mod Refund
pub mod Platform
pub mod Switchboard
pub mod Oracle
pub mod Randomness
pub mod Registration
pub mod Admin
pub mod Lifecycle
pub mod Start
pub mod Closing
pub mod Seeding
pub mod Tests
