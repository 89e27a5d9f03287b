-- ===== src/Accounts.antt =====
-- The account constraints that the instructions under programs/bracket-chain/src/instructions share:
-- the `#[account(seeds = …, bump = …, constraint = …)]` lines on the tournament, a match, a
-- participant, the vault and the protocol configuration. `load_final` is the account list of the
-- finalize instructions.
use bracket_chain_programs.Prelude.{ℕ, [], ◌∷◌, ◌==◌}
use bracket_chain_programs.Errors.{Result, invalid_match_index, invalid_vault, ◌>>◌, require}
use bracket_chain_programs.Constants.{
  protocol_config_seed, tournament_seed, vault_seed, participant_seed, match_seed,
}
use bracket_chain_programs.State.Tournament.{Tournament}
use bracket_chain_programs.State.MatchNode.{MatchNode}
use bracket_chain_programs.State.Participant.{Participant}
use bracket_chain_programs.State.ProtocolConfig.{ProtocolConfig}
use bracket_chain_programs.Runtime.{Runtime, check_seeds, le_bytes}

module _ (rt : Runtime) where
  unfoldable pub check_tournament : Tournament → Result (Unit {0})
  check_tournament t =
      check_seeds rt (tournament_seed ∷ le_bytes 32 t.organizer ∷ t.name ∷ []) t.bump t.key

  unfoldable pub check_match : Tournament → MatchNode → Result (Unit {0})
  check_match t m = do
    check_seeds rt
        (match_seed
          ∷ le_bytes 32 t.key
          ∷ (m.bracket ∷ [])
          ∷ (m.round ∷ [])
          ∷ le_bytes 2 m.match_index
          ∷ [])
        m.bump m.key
    require (m.tournament == t.key) invalid_match_index

  unfoldable pub check_participant : Tournament → ℕ → Participant → Result (Unit {0})
  check_participant t wallet p =
      check_seeds rt (participant_seed ∷ le_bytes 32 t.key ∷ le_bytes 32 wallet ∷ []) p.bump p.key

  unfoldable pub check_protocol_config : ProtocolConfig → Result (Unit {0})
  check_protocol_config c = check_seeds rt (protocol_config_seed ∷ []) c.bump c.key

  unfoldable pub check_vault : Tournament → ℕ → Result (Unit {0})
  check_vault t vault = do
    check_seeds rt (vault_seed ∷ le_bytes 32 t.key ∷ []) t.vault_bump vault
    require (vault == t.vault) invalid_vault
