-- ===== src/LightClient/Complete.antt =====
-- What is printed where no subscription fails.
use sub0_bangkok_challenges.Common.{String, List, [], ◌∷◌, map, ok, done, ◌≡◌, refl, run}
use sub0_bangkok_challenges.LightClient.{
  Types, Block, Item, Line, Sdk, line, print_blocks, tag, main,
}
use sub0_bangkok_challenges.LightClient.Merge.{Merges, both_end, left, right}
use sub0_bangkok_challenges.LightClient.Order.{Subscribes, Selects, main-Subscribes}

module _ {T : Types} where
  -- Items without an error, with the lines of their blocks.
  data Prints : List (String × Item T) → List (Line T) → Type 0 where
    no_more : Prints [] []
    one_more :
        {chain : String} {block : Block T} {items : List (String × Item T)} {ls : List (Line T)}
        → Prints items ls
        → Prints ((chain, ok block) ∷ items) (line chain block ∷ ls)

  print_blocks-Prints :
      {items : List (String × Item T)} {ls : List (Line T)}
      → Prints items ls
      → print_blocks items ≡ (done tt, ls)
  unfolding print_blocks run
  print_blocks-Prints no_more = refl
  print_blocks-Prints (one_more p) = rw (print_blocks-Prints p)

  tag-Prints :
      (chain : String) (blocks : List (Block T))
      → Prints (tag chain (map (λ b. ok b) blocks)) (map (line chain) blocks)
  tag-Prints chain [] = no_more
  tag-Prints chain (block ∷ blocks) = one_more (tag-Prints chain blocks)

  -- The lines are merged as the items are.
  Merges-Prints :
      {xs ys zs : List (String × Item T)} {ls ms : List (Line T)}
      → Merges xs ys zs
      → Prints xs ls
      → Prints ys ms
      → (ns : List (Line T)) × Prints zs ns × Merges ls ms ns
  Merges-Prints both_end no_more no_more = ([], no_more, both_end)
  Merges-Prints (left m) (one_more p) q =
      let (ns, printed, merged) = Merges-Prints m p q in (_ ∷ ns, one_more printed, left merged)
  Merges-Prints (right m) p (one_more q) =
      let (ns, printed, merged) = Merges-Prints m p q in (_ ∷ ns, one_more printed, right merged)

  -- Where both chains are reached, the streams are merged and no subscription yields an error, the
  -- program ends without an error, and what it has printed is a merge of the lines of the two
  -- chains: each block of either once, those of a chain in their order, and nothing else.
  pub main-Merges :
      (S : Sdk T) (polkadot_spec asset_hub_spec : String) (polkadot asset_hub : List (Block T))
      → Selects S
      → Subscribes S polkadot_spec asset_hub_spec
          (map (λ b. ok b) polkadot)
          (map (λ b. ok b) asset_hub)
      → (ls : List (Line T)) × (main S polkadot_spec asset_hub_spec ≡ (done tt, ls))
        × Merges (map (line "Polkadot") polkadot) (map (line "AssetHub") asset_hub) ls
  main-Merges S polkadot_spec asset_hub_spec polkadot asset_hub selects h =
      let (ls, printed, merged) =
        Merges-Prints
          (selects (tag "Polkadot" (map (λ b. ok b) polkadot))
            (tag "AssetHub" (map (λ b. ok b) asset_hub)))
          (tag-Prints "Polkadot" polkadot) (tag-Prints "AssetHub" asset_hub) in
      (
        ls,
        rw (main-Subscribes S polkadot_spec asset_hub_spec _ _ h) (print_blocks-Prints printed),
        merged,
      )
