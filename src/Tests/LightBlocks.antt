-- ===== src/Tests/LightBlocks.antt =====
-- Blocks of two chains, merged in turns.
use sub0_bangkok_challenges.Common.{
  ℕ, String, List, [], ◌∷◌, ok, err, ◌≡◌, refl, failed, run, ◌==◌, if◌then◌else◌,
}
use sub0_bangkok_challenges.LightClient.{Types, Block, Item, Sdk, line, print_blocks, main}
use sub0_bangkok_challenges.LightClient.Merge.{Merges, both_end, left, right, Merges-swap}
use sub0_bangkok_challenges.LightClient.Order.{Subscribes}

abbrev types : Types
types = record { Error = String; Client = ℕ; Rpc = ℕ; Api = ℕ; Hash = ℕ }

-- One item of each stream in turn, while both have items.
abbrev take_turns : {A : Type 0} → List A → List A → List A
take_turns [] ys = ys
take_turns (x ∷ xs) [] = x ∷ xs
take_turns (x ∷ xs) (y ∷ ys) = x ∷ y ∷ take_turns xs ys

only_right : {A : Type 0} (ys : List A) → Merges [] ys ys
only_right [] = both_end
only_right (y ∷ ys) = right (only_right ys)

take_turns-Merges : {A : Type 0} (xs ys : List A) → Merges xs ys (take_turns xs ys)
take_turns-Merges [] ys = only_right ys
take_turns-Merges (x ∷ xs) [] = Merges-swap (only_right (x ∷ xs))
take_turns-Merges (x ∷ xs) (y ∷ ys) = left (right (take_turns-Merges xs ys))

abbrev block : ℕ → Block types
block n = record { hash = n; number = n }

abbrev polkadot : List (Item types)
polkadot = ok (block 1) ∷ ok (block 2) ∷ []

abbrev asset_hub : List (Item types)
asset_hub = ok (block 7) ∷ err "lost" ∷ []

-- The first client is 1 and the second 2.
abbrev sdk : Sdk types
sdk = record {
  relay_chain = λ spec. ok (0, 1);
  parachain = λ client spec. ok 2;
  from_rpc_client = λ rpc. ok rpc;
  subscribe_finalized = λ api. if api == 1 then ok polkadot else ok asset_hub;
  select = take_turns;
}

sdk-Subscribes : Subscribes sdk "polkadot.json" "polkadot_asset_hub.json" polkadot asset_hub
sdk-Subscribes = record {
  client = 0;
  polkadot_rpc = 1;
  asset_hub_rpc = 2;
  polkadot_api = 1;
  asset_hub_api = 2;
  relay_chain_ok = refl;
  parachain_ok = refl;
  polkadot_client_ok = refl;
  asset_hub_client_ok = refl;
  polkadot_sub_ok = refl;
  asset_hub_sub_ok = refl;
}

-- The error of the second chain ends the program after three lines.
three_lines : main sdk "polkadot.json" "polkadot_asset_hub.json" ≡ (
  failed "lost",
  line "Polkadot" (block 1) ∷ line "AssetHub" (block 7) ∷ line "Polkadot" (block 2) ∷ [],
)
unfolding main print_blocks run
three_lines = refl
