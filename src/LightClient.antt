-- ===== src/LightClient.antt =====
-- challenge-1/src/main.rs: a light client that prints the finalized blocks of two chains. `subxt`
-- and the merge of the two streams are the SDK's; a stream is the list of what it yields until it
-- ends.
pub mod Merge
pub mod Order
pub mod Complete
pub mod Rounds
use sub0_bangkok_challenges.Common.{
  ℕ, String, List, [], ◌∷◌, map, Result, ok, err, Act, ◌>>=◌, ◌>>◌, pure, fail, emit, lift,
}

pub record Types : Type 1 where
  pub Error : Type 0
  pub Client : Type 0
  pub Rpc : Type 0
  pub Api : Type 0
  pub Hash : Type 0

module _ (T : Types) where
  pub record Block : Type 0 where
    pub hash : T.Hash
    pub number : ℕ

  -- What a subscription yields.
  abbrev pub Item : Type 0
  Item = Result T.Error Block

  -- The line that `println!` writes, by its arguments.
  pub record Line : Type 0 where
    pub chain : String
    pub hash : T.Hash
    pub height : ℕ

  pub record Sdk : Type 0 where
    pub relay_chain : String → Result T.Error (T.Client × T.Rpc)
    pub parachain : T.Client → String → Result T.Error T.Rpc
    pub from_rpc_client : T.Rpc → Result T.Error T.Api
    pub subscribe_finalized : T.Api → Result T.Error (List Item)
    -- `futures::stream::select`
    pub select : List (String × Item) → List (String × Item) → List (String × Item)

abbrev pub Run : Types → Type 0 → Type 0
Run T A = Act T.Error (Line T) A

module _ {T : Types} where
  abbrev pub line : String → Block T → Line T
  line chain block = record { chain = chain; hash = block.hash; height = block.number }

  -- The `while let` loop: `block?` ends it at the first error.
  unfoldable pub print_blocks : List (String × Item T) → Run T (Unit {0})
  print_blocks [] = pure tt
  print_blocks ((chain, err e) ∷ items) = fail e
  print_blocks ((chain, ok block) ∷ items) = do emit (line chain block); print_blocks items

  abbrev pub tag : String → List (Item T) → List (String × Item T)
  tag chain items = map (λ item. (chain, item)) items

  -- `POLKADOT_SPEC` and `ASSET_HUB_SPEC` are files of the artifacts.
  unfoldable pub main : Sdk T → (polkadot_spec asset_hub_spec : String) → Run T (Unit {0})
  main S polkadot_spec asset_hub_spec = do
    (lightclient, polkadot_rpc) ← lift (S.relay_chain polkadot_spec)
    asset_hub_rpc ← lift (S.parachain lightclient asset_hub_spec)
    polkadot_api ← lift (S.from_rpc_client polkadot_rpc)
    asset_hub_api ← lift (S.from_rpc_client asset_hub_rpc)
    polkadot_sub ← lift (S.subscribe_finalized polkadot_api)
    parachain_sub ← lift (S.subscribe_finalized asset_hub_api)
    print_blocks (S.select (tag "Polkadot" polkadot_sub) (tag "AssetHub" parachain_sub))
