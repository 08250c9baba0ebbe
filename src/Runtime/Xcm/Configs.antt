-- ===== src/Runtime/Xcm/Configs.antt =====
-- How messages of other chains are executed: the configurations of the executor and of the XCM
-- pallet in challenge-3/runtime/src/configs/xcm.rs. Types that name the runtime's own types, or the
-- pallet for one more time, are left out.
use sub0_bangkok_challenges.Common.{ℕ, ◌*◌, Bool, true, false, Option, none, List, [], ◌∷◌}
use sub0_bangkok_challenges.Runtime.Weights.{Weight}
use sub0_bangkok_challenges.Runtime.Pallets.{Pallet, balances}
use sub0_bangkok_challenges.Runtime.Xcm.{Location, relay_location}

-- The network of the accounts that a location may name; `None` is any network.
abbrev pub relay_network : Option ℕ
relay_network = none

-- Conversions of a location into an account, which are tried in order.
pub data AccountConverter : Type 0 where
  parent_is_preset sibling_parachain_converts_via : AccountConverter
  account_id32_aliases : Option ℕ → AccountConverter

abbrev pub location_to_account_id : List AccountConverter
location_to_account_id =
    parent_is_preset ∷ sibling_parachain_converts_via ∷ account_id32_aliases relay_network ∷ []

-- Conversions of the origin of a message into an origin of the runtime, which are tried in order.
pub data OriginConverter : Type 0 where
  sovereign_signed_via_location : List AccountConverter → OriginConverter
  relay_chain_as_native sibling_parachain_as_native : OriginConverter
  signed_account_id32_as_native : Option ℕ → OriginConverter
  xcm_passthrough : OriginConverter

abbrev pub xcm_origin_to_transact_dispatch_origin : List OriginConverter
xcm_origin_to_transact_dispatch_origin =
    sovereign_signed_via_location location_to_account_id
    ∷ relay_chain_as_native
    ∷ sibling_parachain_as_native
    ∷ signed_account_id32_as_native relay_network
    ∷ xcm_passthrough
    ∷ []

-- `FungibleAdapter`: the currency, the location of its asset, and the owners' accounts.
pub record AssetTransactor : Type 0 where
  pub currency : Pallet
  pub concrete : Location
  pub account_of : List AccountConverter

abbrev pub local_asset_transactor : AssetTransactor
local_asset_transactor = record {
  currency = balances;
  concrete = relay_location;
  account_of = location_to_account_id;
}

-- One operation weighs this, and a message has at most so many; `FixedWeightBounds`.
abbrev pub unit_weight_cost : Weight
unit_weight_cost = record { ref_time = 1_000_000_000; proof_size = 64 * 1024 }

abbrev pub max_instructions : ℕ
max_instructions = 100

abbrev pub max_assets_into_holding : ℕ
max_assets_into_holding = 64

pub record FixedWeightBounds : Type 0 where
  pub unit_cost : Weight
  pub instructions : ℕ

abbrev pub weigher : FixedWeightBounds
weigher = record { unit_cost = unit_weight_cost; instructions = max_instructions }

-- The routers of a message, which are tried in order: upwards to the relay chain, and to siblings.
pub data Router : Type 0 where
  parent_as_ump xcmp_queue : Router

abbrev pub xcm_router : List Router
xcm_router = parent_as_ump ∷ xcmp_queue ∷ []

-- Filters that the SDK names `Everything` and `Nothing`.
pub data Filter : Type 0 where
  everything_passes nothing_passes : Filter

-- `xcm_executor::Config`
pub record ExecutorConfig : Type 0 where
  pub xcm_sender : List Router
  pub asset_transactor : AssetTransactor
  pub origin_converter : List OriginConverter
  -- `NativeAsset`: an asset whose origin is its own location
  pub native_reserve : Bool
  pub teleports : Bool
  pub weigher_of : FixedWeightBounds
  -- `UsingComponents`: the asset and the currency that pay for weight
  pub trader_asset : Location
  pub trader_currency : Pallet
  pub max_assets : ℕ
  pub universal_aliases : Filter
  pub safe_call_filter : Filter
  pub aliasers : Filter

abbrev pub xcm_config : ExecutorConfig
xcm_config = record {
  xcm_sender = xcm_router;
  asset_transactor = local_asset_transactor;
  origin_converter = xcm_origin_to_transact_dispatch_origin;
  native_reserve = true;
  teleports = false;
  weigher_of = weigher;
  trader_asset = relay_location;
  trader_currency = balances;
  max_assets = max_assets_into_holding;
  universal_aliases = nothing_passes;
  safe_call_filter = everything_passes;
  aliasers = nothing_passes;
}

-- `pallet_xcm::Config`. A signed account may send, by its own location.
pub record XcmPalletConfig : Type 0 where
  -- `SignedToAccountId32`, of the network
  pub send_xcm_origin : Option ℕ
  pub router : List Router
  pub execute_xcm_origin : Option ℕ
  pub xcm_execute_filter : Filter
  pub xcm_teleport_filter : Filter
  pub xcm_reserve_transfer_filter : Filter
  pub weigher_of : FixedWeightBounds
  pub version_discovery_queue_size : ℕ
  pub currency : Pallet
  pub sovereign_account_of : List AccountConverter
  pub max_lockers : ℕ
  pub max_remote_lock_consumers : ℕ

abbrev pub xcm_pallet_config : XcmPalletConfig
xcm_pallet_config = record {
  send_xcm_origin = relay_network;
  router = xcm_router;
  execute_xcm_origin = relay_network;
  xcm_execute_filter = nothing_passes;
  xcm_teleport_filter = everything_passes;
  xcm_reserve_transfer_filter = nothing_passes;
  weigher_of = weigher;
  version_discovery_queue_size = 100;
  currency = balances;
  sovereign_account_of = location_to_account_id;
  max_lockers = 8;
  max_remote_lock_consumers = 0;
}
