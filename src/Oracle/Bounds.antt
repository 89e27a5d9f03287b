-- ===== src/Oracle/Bounds.antt =====
-- The bounds of the oracle's settings, and what they mean for a proposal.
use bracket_chain_programs.Prelude.{ℕ, ◌≤◌, ◌≡◌, subst, ◌↔◌, some, false, List, [], ◌∷◌, arith}
use bracket_chain_programs.Errors.{ok}
use bracket_chain_programs.State.MatchNode.{MatchNode}
use bracket_chain_programs.State.ProtocolConfig.{ProtocolConfig}
use bracket_chain_programs.Events.{Log}
use bracket_chain_programs.Runtime.{Runtime}
use bracket_chain_programs.Switchboard.{Switchboard, count_fresh}
use bracket_chain_programs.Oracle.Config.{
  validate_oracle_bounds, check_authority, set_oracle_config,
}
use bracket_chain_programs.Oracle.Propose.{OracleContext, propose_result_oracle}
use bracket_chain_programs.Oracle.Outcome.{propose_result_oracle-IsOracleProposal}

-- A wider bound counts no fewer submissions.
count_fresh-wider :
    (slot narrow wide : ℕ) (slots : List ℕ)
    → narrow ≤ wide
    → count_fresh slot narrow slots ≤ count_fresh slot wide slots
count_fresh-wider slot narrow wide [] h = omega arith
count_fresh-wider slot narrow wide (s ∷ slots) h =
    let rest = count_fresh-wider slot narrow wide slots h in ground (arith, rest)

-- What `set_oracle_config` writes.
abbrev pub configured : ℕ → ℕ → ℕ → ProtocolConfig → ProtocolConfig
configured queue max_stale_slots min_oracle_samples cfg = record cfg {
  switchboard_queue = queue;
  max_stale_slots = max_stale_slots;
  min_oracle_samples = min_oracle_samples;
}

module _ (rt : Runtime) (authority queue max_stale_slots min_oracle_samples : ℕ)
    (cfg : ProtocolConfig) where
  -- On the protocol's configuration and signed by its authority, `set_oracle_config` writes the
  -- three settings exactly if at least one sample is asked for and no sample may be older than
  -- 9,000 slots.
  pub set_oracle_config_iff :
      check_authority rt authority cfg ≡ ok tt
      → (set_oracle_config rt authority queue max_stale_slots min_oracle_samples cfg
          ≡ ok (configured queue max_stale_slots min_oracle_samples cfg))
        ↔ ((1 ≤ min_oracle_samples) × (max_stale_slots ≤ 9_000))
  unfolding set_oracle_config validate_oracle_bounds
  set_oracle_config_iff allowed =
      (λ h. (ground (arith, h), ground (arith, h)), λ bounds. ground (arith, allowed, bounds))

  set_oracle_config-configured :
      (cfg' : ProtocolConfig)
      → set_oracle_config rt authority queue max_stale_slots min_oracle_samples cfg ≡ ok cfg'
      → (cfg' ≡ configured queue max_stale_slots min_oracle_samples cfg)
        × (1 ≤ min_oracle_samples)
        × (max_stale_slots ≤ 9_000)
  unfolding set_oracle_config validate_oracle_bounds
  set_oracle_config-configured cfg' h = (ground arith, ground arith, ground arith)

  -- A proposal that the oracle makes under settings as `set_oracle_config` left them reads the feed
  -- that is bound to the match. At least as many submissions to it as were asked for, which is one
  -- at least, are within the staleness bound, and so at most 9,000 slots old.
  pub oracle_proposal-fresh :
      (sb : Switchboard) (c : OracleContext) (m : MatchNode) (log : Log)
      → set_oracle_config rt authority queue max_stale_slots min_oracle_samples cfg
        ≡ ok c.protocol_config
      → propose_result_oracle rt sb c ≡ ok (m, log)
      → (c.switchboard_feed.key ≡ c.match_account.switchboard_feed)
        × ((feed : sb.PullFeed) × (sb.parse_feed c.switchboard_feed.bytes ≡ some feed)
            × (1 ≤ min_oracle_samples)
            × (min_oracle_samples ≤ count_fresh c.slot max_stale_slots (sb.submission_slots feed))
            × (min_oracle_samples ≤ count_fresh c.slot 9_000 (sb.submission_slots feed)))
  oracle_proposal-fresh sb c m log set h =
      let (same, floor, ceiling) = set_oracle_config-configured c.protocol_config set in
      let i = propose_result_oracle-IsOracleProposal rt sb c m log h in
      let fresh =
        sb.enough i.feed c.slot c.protocol_config.max_stale_slots
          c.protocol_config.min_oracle_samples false i.value i.reported in
      let within =
        subst
          (λ g.
            g.min_oracle_samples
            ≤ count_fresh c.slot g.max_stale_slots (sb.submission_slots i.feed))
          same fresh in
      (
        i.bound,
        (
          i.feed,
          i.parsed,
          floor,
          within,
          omega (
            arith,
            within,
            count_fresh-wider c.slot max_stale_slots 9_000 (sb.submission_slots i.feed) ceiling,
          ),
        ),
      )
