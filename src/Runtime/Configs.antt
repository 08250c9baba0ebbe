-- ===== src/Runtime/Configs.antt =====
-- The configurations of the pallets, challenge-3/runtime/src/configs/mod.rs: their limits and
-- constants, and which pallet stands behind each of their interfaces. `none` is the type `()`, the
-- implementation that does nothing. Types that only repeat a type of the runtime, such as
-- `RuntimeEvent`, are left out.
use sub0_bangkok_challenges.Common.{ℕ, Bool, true, Option, none, some, List, [], ◌∷◌, Outcome}
use sub0_bangkok_challenges.Runtime.Constants.{
  existential_deposit, transaction_byte_fee, slot_duration, ss58_prefix, period, offset,
  RuntimeVersion, version,
}
use sub0_bangkok_challenges.Runtime.Weights.{RuntimeDbWeight, rocks_db_weight}
use sub0_bangkok_challenges.Runtime.Limits.{
  Sdk, BlockLength, BlockWeights, runtime_block_length, runtime_block_weights,
}
use sub0_bangkok_challenges.Runtime.Pallets.{Pallet, system, balances, aura}

pub record SystemConfig : Type 0 where
  pub block_weights : Outcome ⊥ BlockWeights
  pub block_length : BlockLength
  pub block_hash_count : ℕ
  pub db_weight : RuntimeDbWeight
  pub version_of : RuntimeVersion
  -- `pallet_balances::AccountData`
  pub account_data : Pallet
  pub ss58_prefix_of : ℕ
  pub max_consumers : ℕ

abbrev pub system_config : Sdk → ℕ → SystemConfig
system_config S nanos = record {
  block_weights = runtime_block_weights S nanos;
  block_length = runtime_block_length S nanos;
  block_hash_count = 250;
  db_weight = rocks_db_weight nanos;
  version_of = version;
  account_data = balances;
  ss58_prefix_of = ss58_prefix;
  max_consumers = 16;
}

pub record TimestampConfig : Type 0 where
  pub on_timestamp_set : Option Pallet
  pub minimum_period : ℕ

abbrev pub timestamp_config : TimestampConfig
timestamp_config = record { on_timestamp_set = some aura; minimum_period = 0 }

pub record AuthorshipConfig : Type 0 where
  -- `FindAccountFromAuthorIndex`, of the pallet that finds the index
  pub find_author : Pallet
  pub event_handler : Option Pallet

abbrev pub authorship_config : AuthorshipConfig
authorship_config = record { find_author = aura; event_handler = none }

pub record BalancesConfig : Type 0 where
  pub max_locks : ℕ
  pub dust_removal : Option Pallet
  pub existential_deposit_of : ℕ
  pub account_store : Pallet
  pub max_reserves : ℕ
  -- the length of `[u8; 8]`
  pub reserve_identifier : ℕ

abbrev pub balances_config : BalancesConfig
balances_config = record {
  max_locks = 50;
  dust_removal = none;
  existential_deposit_of = existential_deposit;
  account_store = system;
  max_reserves = 50;
  reserve_identifier = 8;
}

-- A factor by which fees are multiplied; `Multiplier::one()`.
abbrev pub fee_multiplier : ℕ
fee_multiplier = 1

pub record TransactionPaymentConfig : Type 0 where
  -- `FungibleAdapter`: the currency, and what becomes of a fee
  pub on_charge_transaction : Pallet
  pub on_unbalanced : Option Pallet
  -- `ConstantMultiplier`
  pub length_to_fee : ℕ
  -- `ConstFeeMultiplier`: the multiplier never changes
  pub fee_multiplier_update : ℕ
  pub operational_fee_multiplier : ℕ

abbrev pub transaction_payment_config : TransactionPaymentConfig
transaction_payment_config = record {
  on_charge_transaction = balances;
  on_unbalanced = none;
  length_to_fee = transaction_byte_fee;
  fee_multiplier_update = fee_multiplier;
  operational_fee_multiplier = 5;
}

pub record GrandpaConfig : Type 0 where
  pub max_authorities : ℕ
  pub max_nominators : ℕ
  pub max_set_id_session_entries : ℕ
  -- `()`: equivocations are not reported
  pub equivocation_report_system : Option Pallet

abbrev pub grandpa_config : GrandpaConfig
grandpa_config = record {
  max_authorities = 32;
  max_nominators = 0;
  max_set_id_session_entries = 0;
  equivocation_report_system = none;
}

-- `PeriodicSessions`, of a period and an offset.
pub record PeriodicSessions : Type 0 where
  pub session_period : ℕ
  pub session_offset : ℕ

pub record SessionConfig : Type 0 where
  pub validator_id_of : Option Pallet
  pub should_end_session : PeriodicSessions
  pub next_session_rotation : PeriodicSessions
  -- `()`: no session brings new validators
  pub session_manager : Option Pallet
  -- the providers of the keys of `SessionKeys`
  pub session_handler : List Pallet

abbrev pub session_config : SessionConfig
session_config = record {
  validator_id_of = none;
  should_end_session = record { session_period = period; session_offset = offset };
  next_session_rotation = record { session_period = period; session_offset = offset };
  session_manager = none;
  session_handler = aura ∷ [];
}

pub record AuraConfig : Type 0 where
  pub disabled_validators : Option Pallet
  pub max_authorities : ℕ
  pub allow_multiple_blocks_per_slot : Bool
  pub slot_duration_of : ℕ

abbrev pub aura_config : AuraConfig
aura_config = record {
  disabled_validators = none;
  max_authorities = 100_000;
  allow_multiple_blocks_per_slot = true;
  slot_duration_of = slot_duration;
}
