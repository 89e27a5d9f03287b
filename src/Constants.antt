-- ===== src/Constants.antt =====
-- programs/bracket-chain/src/constants.rs. Byte strings are lists of bytes.
use bracket_chain_programs.Prelude.{ℕ, List, [], ◌∷◌}

abbrev pub event_version_v1 : ℕ
event_version_v1 = 1

abbrev pub protocol_fee_bps : ℕ
protocol_fee_bps = 350

abbrev pub bps_denominator : ℕ
bps_denominator = 10_000

abbrev pub min_participants_allowed : ℕ
min_participants_allowed = 2

abbrev pub max_participants_allowed : ℕ
max_participants_allowed = 128

abbrev pub force_claim_window_secs : ℕ
force_claim_window_secs = 86_400

abbrev pub max_tournament_name_len : ℕ
max_tournament_name_len = 32

abbrev pub max_payout_slots : ℕ
max_payout_slots = 8

abbrev pub payout_wta : List ℕ
payout_wta = 10_000 ∷ 0 ∷ 0 ∷ 0 ∷ 0 ∷ 0 ∷ 0 ∷ 0 ∷ []

abbrev pub payout_standard : List ℕ
payout_standard = 6_000 ∷ 2_500 ∷ 1_500 ∷ 0 ∷ 0 ∷ 0 ∷ 0 ∷ 0 ∷ []

abbrev pub payout_deep : List ℕ
payout_deep = 4_000 ∷ 2_500 ∷ 1_500 ∷ 1_000 ∷ 500 ∷ 300 ∷ 200 ∷ 0 ∷ []

-- The seeds of program addresses, as bytes.
abbrev pub protocol_config_seed : List ℕ
protocol_config_seed =
    b'p' ∷ b'r' ∷ b'o' ∷ b't' ∷ b'o' ∷ b'c' ∷ b'o' ∷ b'l' ∷ b'_' ∷ b'c' ∷ b'o' ∷ b'n' ∷ b'f' ∷ b'i'
    ∷ b'g' ∷ []

abbrev pub tournament_seed : List ℕ
tournament_seed = b't' ∷ b'o' ∷ b'u' ∷ b'r' ∷ b'n' ∷ b'a' ∷ b'm' ∷ b'e' ∷ b'n' ∷ b't' ∷ []

abbrev pub vault_seed : List ℕ
vault_seed = b'v' ∷ b'a' ∷ b'u' ∷ b'l' ∷ b't' ∷ []

abbrev pub participant_seed : List ℕ
participant_seed = b'p' ∷ b'a' ∷ b'r' ∷ b't' ∷ b'i' ∷ b'c' ∷ b'i' ∷ b'p' ∷ b'a' ∷ b'n' ∷ b't' ∷ []

abbrev pub match_seed : List ℕ
match_seed = b'm' ∷ b'a' ∷ b't' ∷ b'c' ∷ b'h' ∷ []

-- start_tournament.rs
abbrev pub seed_domain : List ℕ
seed_domain =
    b'b' ∷ b'r' ∷ b'a' ∷ b'c' ∷ b'k' ∷ b'e' ∷ b't' ∷ b'c' ∷ b'h' ∷ b'a' ∷ b'i' ∷ b'n' ∷ b':' ∷ b's'
    ∷ b'e' ∷ b'e' ∷ b'd' ∷ b':' ∷ b's' ∷ b'l' ∷ b'o' ∷ b't' ∷ b'-' ∷ b'h' ∷ b'a' ∷ b's' ∷ b'h'
    ∷ b':' ∷ b'v' ∷ b'1' ∷ []

-- The addresses of programs that own accounts of theirs, which the source spells in base 58.
abbrev pub sas_program_id : ℕ
sas_program_id =
    82_931_307_837_792_477_194_585_922_422_428_279_671_308_804_262_157_902_089_787_423_577_632_392_764_943

abbrev pub switchboard_on_demand_devnet : ℕ
switchboard_on_demand_devnet =
    91_994_868_647_442_815_024_140_903_621_673_425_039_662_672_544_247_958_790_334_887_082_509_477_375_632

abbrev pub switchboard_on_demand_mainnet : ℕ
switchboard_on_demand_mainnet =
    52_194_512_079_131_905_617_976_832_412_304_674_292_769_732_290_592_521_105_695_375_324_431_072_981_766

-- The bounds of the oracle's settings.
abbrev pub min_oracle_samples_floor : ℕ
min_oracle_samples_floor = 1

abbrev pub max_oracle_stale_slots_ceiling : ℕ
max_oracle_stale_slots_ceiling = 9_000
