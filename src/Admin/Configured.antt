-- ===== src/Admin/Configured.antt =====
-- What `initialize_protocol` has done when it succeeds.
use bracket_chain_programs.Prelude.{
  ℕ, ◌≡◌, ◌≢◌, refl, sym, ap, subst, ◌↔◌, inl, inr, [], ◌∷◌, arith, Option-cases,
}
use bracket_chain_programs.Errors.{ok, Result-cases}
use bracket_chain_programs.Constants.{protocol_config_seed}
use bracket_chain_programs.State.ProtocolConfig.{ProtocolConfig}
use bracket_chain_programs.Runtime.{Runtime}
use bracket_chain_programs.Accounts.{check_protocol_config}
use bracket_chain_programs.Store.{Store, closed}
use bracket_chain_programs.Platform.{SystemProgram, Finder}
use bracket_chain_programs.Oracle.Config.{check_authority}
use bracket_chain_programs.Registration.Init.{find_bump, init_account}
use bracket_chain_programs.Registration.Created.{find_bump-seeds}
use bracket_chain_programs.Admin.Initialize.{
  InitializeContext, protocol_config_space, config_from, initialize_protocol,
}

check_authority_iff :
    (rt : Runtime) (signer authority : ℕ) (cfg : ProtocolConfig)
    → check_protocol_config rt cfg ≡ ok tt
    → cfg.authority ≡ authority
    → (check_authority rt signer cfg ≡ ok tt) ↔ (signer ≡ authority)
unfolding check_authority
check_authority_iff rt signer authority cfg e a =
    (λ h. ground (arith, h, e, a), λ h. ground (arith, h, e, a))

module _ (rt : Runtime) (finder : Finder rt) (sys : SystemProgram) (c : InitializeContext) where
  -- The configuration names the accounts, a fee of 3.5%, and no oracle, no credential and no schema.
  pub record IsInitial (cfg : ProtocolConfig) : Type 0 where
    pub key : cfg.key ≡ c.protocol_config
    pub authority : cfg.authority ≡ c.authority
    pub treasury : cfg.treasury ≡ c.treasury
    pub default_mint : cfg.default_mint ≡ c.default_mint
    pub fee : cfg.fee_bps ≡ 350
    pub no_oracle :
        (cfg.switchboard_queue ≡ 0) × (cfg.max_stale_slots ≡ 0) × (cfg.min_oracle_samples ≡ 0)
    pub no_credential : cfg.sas_credential ≡ 0
    pub no_schemas : cfg.sas_schemas ≡ 0 ∷ 0 ∷ 0 ∷ 0 ∷ 0 ∷ []

  config_from-IsInitial : (bump : ℕ) → IsInitial (config_from c bump)
  unfolding config_from
  config_from-IsInitial bump = record {
    key = refl;
    authority = refl;
    treasury = refl;
    default_mint = refl;
    fee = refl;
    no_oracle = (refl, refl, refl);
    no_credential = refl;
    no_schemas = refl;
  }

  -- A call of `initialize_protocol` that succeeds creates an account of the program where none was
  -- in use, and changes the owner and the contents of no other. The configuration that it holds has
  -- the signer as the authority, a fee of 350 basis points, and neither an oracle nor a credential
  -- nor a schema. It passes the constraints of later instructions, and those of the authority for
  -- exactly that signer.
  pub initialize_protocol-authority :
      (store store' : Store) (cfg : ProtocolConfig)
      → initialize_protocol rt finder sys c store ≡ ok (cfg, store')
      → ((store c.protocol_config).contents ≡ closed)
        × ((store' c.protocol_config).owner ≡ rt.program_id)
        × ((k : ℕ)
            → k ≢ c.protocol_config
            → ((store' k).owner ≡ (store k).owner) × ((store' k).contents ≡ (store k).contents))
        × IsInitial cfg
        × (check_protocol_config rt cfg ≡ ok tt)
        × ((signer : ℕ) → (check_authority rt signer cfg ≡ ok tt) ↔ (signer ≡ c.authority))
  unfolding initialize_protocol init_account config_from check_protocol_config
  initialize_protocol-authority store store' cfg h =
      elim (Result-cases (find_bump rt finder (protocol_config_seed ∷ []) c.protocol_config)) [
        | inr (x, failed) ↦ absurd (ground arith)
        | inl (bump, found) ↦
            elim (Option-cases (
              sys.create_account store c.authority c.protocol_config
                (sys.minimum_balance protocol_config_space) protocol_config_space rt.program_id)) [
                  | inl failed ↦ absurd (ground arith)
                  | inr (made, created) ↦
                      let same : cfg ≡ config_from c bump = ground arith in
                      let left : made ≡ store' = ground arith in
                      let derived =
                        find_bump-seeds rt finder (protocol_config_seed ∷ []) c.protocol_config bump
                          found in
                      let constrained : check_protocol_config rt cfg ≡ ok tt =
                        subst (λ x. check_protocol_config rt x ≡ ok tt) (sym same) derived in
                      (
                        sys.unused store made c.authority c.protocol_config
                            (sys.minimum_balance protocol_config_space) protocol_config_space
                            rt.program_id created,
                        ground (
                          arith,
                          h,
                          sys.owned store made c.authority c.protocol_config
                              (sys.minimum_balance protocol_config_space) protocol_config_space
                              rt.program_id created,
                        ),
                        λ k ne.
                            subst
                              (λ x.
                                ((x k).owner ≡ (store k).owner)
                                × ((x k).contents ≡ (store k).contents))
                              left
                              (sys.kept store made c.authority c.protocol_config
                                (sys.minimum_balance protocol_config_space) protocol_config_space
                                rt.program_id k created ne),
                        subst IsInitial (sym same) (config_from-IsInitial bump),
                        constrained,
                        λ signer.
                            check_authority_iff rt signer c.authority cfg constrained
                              (ap (λ x. x.authority) same),
                      )
                ]
      ]
