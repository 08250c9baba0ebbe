-- ===== src/LightClient/Rounds/Streams.antt =====
-- Subscriptions that may never end, what `futures::stream::select` makes of two, and what a number
-- of rounds of the loop may have printed of them.
use sub0_bangkok_challenges.Common.{
  ℕ, ◌+◌, ◌≤◌, ◌≡◌, ◌⊎◌, String, Option, none, some, List, [], ◌∷◌, map, length, ok, err, Result,
  and_then, Outcome, done, failed, panicked,
}
use sub0_bangkok_challenges.LightClient.{Types, Block, Item, Run, line}
use sub0_bangkok_challenges.LightClient.Merge.{Merges}
use sub0_bangkok_challenges.LightClient.Rounds.{StreamSdk}

module _ {T : Types} (S : StreamSdk T) where
  open S use {Subscription, Selected, next_block, next}

  -- What `futures::stream::select` holds, and what it yields next: the next item of either stream,
  -- with its tag; it ends when both have ended.
  pub data Yielded (l r : String × Subscription) (l_of r_of : Selected → String × Subscription)
      : Option ((String × Item T) × Selected) → Type 0 where
    ended : next_block l.1 ≡ none → next_block r.1 ≡ none → Yielded l r l_of r_of none
    of_left :
        {item : Item T} {stream : Selected} (sub : Subscription)
        → next_block l.1 ≡ some (item, sub)
        → l_of stream ≡ (l.0, sub)
        → r_of stream ≡ r
        → Yielded l r l_of r_of (some ((l.0, item), stream))
    of_right :
        {item : Item T} {stream : Selected} (sub : Subscription)
        → next_block r.1 ≡ some (item, sub)
        → l_of stream ≡ l
        → r_of stream ≡ (r.0, sub)
        → Yielded l r l_of r_of (some ((r.0, item), stream))

  pub record IsSelect : Type 0 where
    pub left_of : Selected → String × Subscription
    pub right_of : Selected → String × Subscription
    pub left_select : (l r : String × Subscription) → left_of (S.select l r) ≡ l
    pub right_select : (l r : String × Subscription) → right_of (S.select l r) ≡ r
    pub yields :
        (stream : Selected)
        → Yielded (left_of stream) (right_of stream) left_of right_of (next stream)

  -- The subscription yields these blocks, and is then the second one.
  pub data Yields : Subscription → List (Block T) → Subscription → Type 0 where
    nothing : {sub : Subscription} → Yields sub [] sub
    one_more :
        {sub later last : Subscription} {block : Block T} {blocks : List (Block T)}
        → next_block sub ≡ some (ok block, later)
        → Yields later blocks last
        → Yields sub (block ∷ blocks) last

  abbrev pub FailsWith : Subscription → T.Error → Type 0
  FailsWith sub e = (later : Subscription) × (next_block sub ≡ some (err e, later))

  module _ (h : IsSelect) where
    -- How the rounds can end, with what is left of the subscriptions: the limit is reached, both
    -- subscriptions have ended, or one of them has yielded the error.
    abbrev pub Ending :
        ℕ → ℕ → (l r : String × Subscription) → Outcome T.Error (Option Selected) → Type 0
    Ending n printed l r (done (some stream)) =
        (printed ≡ n) × (h.left_of stream ≡ l) × (h.right_of stream ≡ r)
    Ending n printed l r (done none) = (next_block l.1 ≡ none) × (next_block r.1 ≡ none)
    Ending n printed l r (failed e) = FailsWith l.1 e ⊎ FailsWith r.1 e
    Ending n printed l r (panicked s) = ⊥

    pub record Account (n : ℕ) (l r : String × Subscription) (m : Run T (Option Selected))
        : Type 0 where
      pub left_blocks : List (Block T)
      pub right_blocks : List (Block T)
      pub left_last : Subscription
      pub right_last : Subscription
      pub left_yields : Yields l.1 left_blocks left_last
      pub right_yields : Yields r.1 right_blocks right_last
      pub printed : Merges (map (line l.0) left_blocks) (map (line r.0) right_blocks) m.1
      pub within : length left_blocks + length right_blocks ≤ n
      pub ending :
          Ending n (length left_blocks + length right_blocks) (l.0, left_last) (r.0, right_last) m.0

-- What both subscriptions are, if nothing fails before the loop.
unfoldable pub connected :
    {T : Types} (S : StreamSdk T)
    → (polkadot_spec asset_hub_spec : String) → Result T.Error (S.Subscription × S.Subscription)
connected S polkadot_spec asset_hub_spec =
    and_then (S.relay_chain polkadot_spec) λ (client, polkadot_rpc).
      and_then (S.parachain client asset_hub_spec) λ asset_hub_rpc.
        and_then (S.from_rpc_client polkadot_rpc) λ polkadot_api.
          and_then (S.from_rpc_client asset_hub_rpc) λ asset_hub_api.
            and_then (S.subscribe_finalized polkadot_api) λ polkadot.
              and_then (S.subscribe_finalized asset_hub_api) λ asset_hub. ok (polkadot, asset_hub)
