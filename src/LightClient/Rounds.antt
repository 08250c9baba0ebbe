-- ===== src/LightClient/Rounds.antt =====
-- The loop of challenge-1/src/main.rs over streams that may never end: `while let` with a limit of
-- rounds. A subscription is a state from which the next item is drawn; none is left when it ends.
pub mod Streams
pub mod Account
pub mod Termination
pub mod Program
pub mod Listed
pub mod Complete
pub mod Fair
use sub0_bangkok_challenges.Common.{
  ℕ, zero, suc, String, Option, none, some, Result, ok, err, ◌>>=◌, ◌>>◌, pure, fail, emit, lift,
}
use sub0_bangkok_challenges.LightClient.{Types, Item, Run, line}

pub record StreamSdk (T : Types) : Type 1 where
  pub Subscription : Type 0
  -- `futures::stream::Select`
  pub Selected : Type 0
  pub relay_chain : String → Result T.Error (T.Client × T.Rpc)
  pub parachain : T.Client → String → Result T.Error T.Rpc
  pub from_rpc_client : T.Rpc → Result T.Error T.Api
  pub subscribe_finalized : T.Api → Result T.Error Subscription
  pub next_block : Subscription → Option (Item T × Subscription)
  -- of two streams whose items are tagged, `.map(|block| (chain, block))`
  pub select : String × Subscription → String × Subscription → Selected
  pub next : Selected → Option ((String × Item T) × Selected)

module _ {T : Types} (S : StreamSdk T) where
  open S use {Selected}

  -- One round of the loop, on what `next` returned; the rest of the loop is `again`.
  unfoldable pub round :
      (again : Selected → Run T (Option Selected))
      → Option ((String × Item T) × Selected)
      → Run T (Option Selected)
  round again none = pure none
  round again (some ((chain, err e), stream)) = fail e
  round again (some ((chain, ok block), stream)) = do emit (line chain block); again stream

  -- At most `n` rounds. The stream is returned if it has not ended by then.
  unfoldable pub rounds : ℕ → Selected → Run T (Option Selected)
  rounds zero stream = pure (some stream)
  rounds (suc n) stream = round (rounds n) (S.next stream)

  unfoldable pub main_rounds : ℕ → (polkadot_spec asset_hub_spec : String) → Run T (Option Selected)
  main_rounds n polkadot_spec asset_hub_spec = do
    (lightclient, polkadot_rpc) ← lift (S.relay_chain polkadot_spec)
    asset_hub_rpc ← lift (S.parachain lightclient asset_hub_spec)
    polkadot_api ← lift (S.from_rpc_client polkadot_rpc)
    asset_hub_api ← lift (S.from_rpc_client asset_hub_rpc)
    polkadot_sub ← lift (S.subscribe_finalized polkadot_api)
    parachain_sub ← lift (S.subscribe_finalized asset_hub_api)
    rounds n (S.select ("Polkadot", polkadot_sub) ("AssetHub", parachain_sub))
