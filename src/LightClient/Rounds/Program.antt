-- ===== src/LightClient/Rounds/Program.antt =====
-- The whole program over streams that may never end: the setup, and then the rounds.
use sub0_bangkok_challenges.Common.{
  ℕ, ◌+◌, ◌≤◌, ◌<◌, ◌≡◌, refl, sym, ap, subst, ◌∙◌, String, Option, [], Result, ok, err, and_then,
  failed, Act, ◌>>=◌, lift, run,
}
use sub0_bangkok_challenges.LightClient.{Types, Run}
use sub0_bangkok_challenges.LightClient.Rounds.{StreamSdk, rounds, main_rounds}
use sub0_bangkok_challenges.LightClient.Rounds.Streams.{IsSelect, Account, connected}
use sub0_bangkok_challenges.LightClient.Rounds.Account.{rounds-Account}
use sub0_bangkok_challenges.LightClient.Rounds.Termination.{
  EndsWithin, Stops, rounds-Stops, rounds-more,
}

-- `?` on a result that is itself made with `?`.
lift-and_then :
    {X E A B C : Type 0} (r : Result X A) (f : A → Result X B) (k : B → Act X E C)
    (g : A → Act X E C)
    → ((a : A) → (lift (f a) >>= k) ≡ g a)
    → (lift (and_then r f) >>= k) ≡ (lift r >>= g)
unfolding run
lift-and_then (ok a) f k g e = e a
lift-and_then (err x) f k g e = refl

lift-ok : {X E A C : Type 0} (a : A) (k : A → Act X E C) → (lift (ok a) >>= k) ≡ k a
unfolding run
lift-ok a k = refl

lift-err : {X E A C : Type 0} (x : X) (k : A → Act X E C) → (lift (err x) >>= k) ≡ (failed x, [])
unfolding run
lift-err x k = refl

module _ {T : Types} (S : StreamSdk T) where
  open S use {Subscription}

  main_rounds-connected :
      (n : ℕ) (polkadot_spec asset_hub_spec : String)
      → (lift (connected S polkadot_spec asset_hub_spec) >>= λ (polkadot, asset_hub).
          rounds S n (S.select ("Polkadot", polkadot) ("AssetHub", asset_hub)))
        ≡ main_rounds S n polkadot_spec asset_hub_spec
  unfolding main_rounds connected
  main_rounds-connected n polkadot_spec asset_hub_spec =
      lift-and_then (S.relay_chain polkadot_spec) _ _ _ λ (client, polkadot_rpc).
        lift-and_then (S.parachain client asset_hub_spec) _ _ _ λ asset_hub_rpc.
          lift-and_then (S.from_rpc_client polkadot_rpc) _ _ _ λ polkadot_api.
            lift-and_then (S.from_rpc_client asset_hub_rpc) _ _ _ λ asset_hub_api.
              lift-and_then (S.subscribe_finalized polkadot_api) _ _ _ λ polkadot.
                lift-and_then (S.subscribe_finalized asset_hub_api) _ _ _
                  λ asset_hub. lift-ok (polkadot, asset_hub) _

  module _ (h : IsSelect S) where
    -- What a run is, of what both subscriptions are, or of the error that comes before the loop.
    abbrev pub Runs :
        ℕ → Result T.Error (Subscription × Subscription) → Run T (Option S.Selected) → Type 0
    Runs n (err e) m = m ≡ (failed e, [])
    Runs n (ok (polkadot, asset_hub)) m =
        Account S h n ("Polkadot", polkadot) ("AssetHub", asset_hub) m

    rounds_of_select-Account :
        (n : ℕ) (l r : String × Subscription) → Account S h n l r (rounds S n (S.select l r))
    rounds_of_select-Account n l r =
        subst (λ p. Account S h n p r (rounds S n (S.select l r))) (h.left_select l r)
          (subst (λ q. Account S h n (h.left_of (S.select l r)) q (rounds S n (S.select l r)))
            (h.right_select l r) (rounds-Account S h n (S.select l r)))

    lift-Runs :
        (n : ℕ) (setup : Result T.Error (Subscription × Subscription))
        → Runs n setup (
            lift setup >>= λ (polkadot, asset_hub).
            rounds S n (S.select ("Polkadot", polkadot) ("AssetHub", asset_hub)))
    lift-Runs n (err e) = lift-err e _
    lift-Runs n (ok (polkadot, asset_hub)) =
        subst (Account S h n ("Polkadot", polkadot) ("AssetHub", asset_hub))
          (sym (lift-ok (polkadot, asset_hub) _))
          (rounds_of_select-Account n ("Polkadot", polkadot) ("AssetHub", asset_hub))

  -- If the merged stream yields the items of either subscription in order, then after any number of
  -- rounds over streams that may never end: if the setup fails, the program ends
  -- with its error and prints nothing. Else the lines are a merge of a beginning of each
  -- subscription, in order and with its chain's name, at most as many as the rounds; and either the
  -- limit is reached after that many lines, or both subscriptions have ended there, or one of them
  -- yields the error with which the program ends. It never panics.
  pub main_rounds-Runs :
      (h : IsSelect S) (n : ℕ) (polkadot_spec asset_hub_spec : String)
      → Runs h n
          (connected S polkadot_spec asset_hub_spec)
          (main_rounds S n polkadot_spec asset_hub_spec)
  main_rounds-Runs h n polkadot_spec asset_hub_spec =
      subst (Runs h n (connected S polkadot_spec asset_hub_spec))
        (main_rounds-connected n polkadot_spec asset_hub_spec)
        (lift-Runs h n (connected S polkadot_spec asset_hub_spec))

  pub main_rounds-rounds :
      (n : ℕ) (polkadot_spec asset_hub_spec : String) (polkadot asset_hub : Subscription)
      → connected S polkadot_spec asset_hub_spec ≡ ok (polkadot, asset_hub)
      → main_rounds S n polkadot_spec asset_hub_spec
        ≡ rounds S n (S.select ("Polkadot", polkadot) ("AssetHub", asset_hub))
  main_rounds-rounds n polkadot_spec asset_hub_spec polkadot asset_hub e =
      sym (main_rounds-connected n polkadot_spec asset_hub_spec)
      ∙ ap (λ r. lift r >>= λ (p, a). rounds S n (S.select ("Polkadot", p) ("AssetHub", a))) e
      ∙ lift-ok (polkadot, asset_hub) _

  -- If both chains are reached, the merged stream yields the items of either subscription in order,
  -- and both subscriptions end, the program does: with more rounds than the subscriptions have
  -- items together, the limit is not reached, and any larger limit gives the same run.
  pub main_rounds-Stops :
      (h : IsSelect S) (n m k j : ℕ) (polkadot_spec asset_hub_spec : String)
      (polkadot asset_hub : Subscription)
      → connected S polkadot_spec asset_hub_spec ≡ ok (polkadot, asset_hub)
      → EndsWithin S k polkadot
      → EndsWithin S j asset_hub
      → k + j < n
      → n ≤ m
      → Stops S (main_rounds S n polkadot_spec asset_hub_spec).0
        × (main_rounds S m polkadot_spec asset_hub_spec
            ≡ main_rounds S n polkadot_spec asset_hub_spec)
  main_rounds-Stops h n m k j polkadot_spec asset_hub_spec polkadot asset_hub e el er lt le =
      let l : String × Subscription = ("Polkadot", polkadot) in
      let r : String × Subscription = ("AssetHub", asset_hub) in
      let s =
        rounds-Stops S h n k j (S.select l r)
          (subst (λ p. EndsWithin S k p.1) (sym (h.left_select l r)) el)
          (subst (λ p. EndsWithin S j p.1) (sym (h.right_select l r)) er) lt in
      rw
        (
          main_rounds-rounds n polkadot_spec asset_hub_spec polkadot asset_hub e,
          main_rounds-rounds m polkadot_spec asset_hub_spec polkadot asset_hub e,
        )
        (s, rounds-more S n m (S.select l r) le s)
