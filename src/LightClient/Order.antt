-- ===== src/LightClient/Order.antt =====
-- What is printed, in which order.
use sub0_bangkok_challenges.Common.{
  String, Bool, true, false, List, [], ◌∷◌, ◌++◌, map, Option, none, some, ok, err, done, failed,
  ◌≡◌, ◌∙◌, refl, ap, subst, str_eq, if◌then◌else◌, emit, run,
}
use sub0_bangkok_challenges.Common.Emits.{
  Emits, Emits-bind, Emits-pure, Emits-fail, Emits-keep, Emits-drop, project,
}
use sub0_bangkok_challenges.LightClient.{
  Types, Block, Item, Line, Sdk, line, print_blocks, tag, main,
}
use sub0_bangkok_challenges.LightClient.Merge.{Merges, project-Merges_left, Merges-swap}

if-cons :
    {A : Type 0} (b : Bool) (x : A) (xs : List A)
    → elim (if b then some x else none) as (λ _. List A) [ none ↦ xs | some f ↦ f ∷ xs ]
      ≡ (if b then x ∷ [] else []) ++ xs
if-cons true x xs = refl
if-cons false x xs = refl

module _ {T : Types} where
  -- The blocks among the items of a stream.
  abbrev pub blocks_of : List (Item T) → List (Block T)
  blocks_of [] = []
  blocks_of (ok block ∷ items) = block ∷ blocks_of items
  blocks_of (err e ∷ items) = blocks_of items

  -- The lines of one chain, and the items that become these.
  abbrev pub line_of : String → Line T → Option (Line T)
  line_of chain l = if str_eq chain l.chain then some l else none

  item_line : String → String × Item T → Option (Line T)
  item_line chain (_, err e) = none
  item_line chain (c, ok block) = if str_eq chain c then some (line c block) else none

  emit_if-line :
      (p : Line T → Option (Line T)) (b : Bool) (l : Line T)
      → p l ≡ (if b then some l else none)
      → Emits {X = T.Error} p (if b then l ∷ [] else []) (emit l)
  emit_if-line p true l e = Emits-keep l e
  emit_if-line p false l e = Emits-drop l e

  print_blocks-lines :
      (chain : String) (items : List (String × Item T))
      → Emits (line_of chain) (project (item_line chain) items) (print_blocks items)
  unfolding print_blocks item_line
  print_blocks-lines chain [] = Emits-pure tt
  print_blocks-lines chain ((c, err e) ∷ items) = Emits-fail e
  print_blocks-lines chain ((c, ok block) ∷ items) =
      rw (if-cons (str_eq chain c) (line c block) (project (item_line chain) items)) (
        Emits-bind (emit_if-line (line_of chain) (str_eq chain c) (line c block) refl)
          (λ _. print_blocks-lines chain items))

  tag-lines :
      (chain : String) (items : List (Item T))
      → str_eq chain chain ≡ true
      → project (item_line chain) (tag chain items) ≡ map (line chain) (blocks_of items)
  unfolding item_line
  tag-lines chain [] e = refl
  tag-lines chain (ok block ∷ items) e =
      rw (project, e) (ap (λ l. line chain block ∷ l) (tag-lines chain items e))
  tag-lines chain (err x ∷ items) e = tag-lines chain items e

  tag-other_lines :
      (chain other : String) (items : List (Item T))
      → str_eq chain other ≡ false
      → project (item_line chain) (tag other items) ≡ []
  unfolding item_line
  tag-other_lines chain other [] e = refl
  tag-other_lines chain other (ok block ∷ items) e =
      rw (project, e) (tag-other_lines chain other items e)
  tag-other_lines chain other (err x ∷ items) e = tag-other_lines chain other items e

  -- Both chains are reached, and their subscriptions yield these items.
  pub record Subscribes (S : Sdk T) (polkadot_spec asset_hub_spec : String)
      (polkadot asset_hub : List (Item T)) : Type 0 where
    pub client : T.Client
    pub polkadot_rpc : T.Rpc
    pub asset_hub_rpc : T.Rpc
    pub polkadot_api : T.Api
    pub asset_hub_api : T.Api
    pub relay_chain_ok : S.relay_chain polkadot_spec ≡ ok (client, polkadot_rpc)
    pub parachain_ok : S.parachain client asset_hub_spec ≡ ok asset_hub_rpc
    pub polkadot_client_ok : S.from_rpc_client polkadot_rpc ≡ ok polkadot_api
    pub asset_hub_client_ok : S.from_rpc_client asset_hub_rpc ≡ ok asset_hub_api
    pub polkadot_sub_ok : S.subscribe_finalized polkadot_api ≡ ok polkadot
    pub asset_hub_sub_ok : S.subscribe_finalized asset_hub_api ≡ ok asset_hub

  abbrev pub Selects : Sdk T → Type 0
  Selects S = (xs ys : List (String × Item T)) → Merges xs ys (S.select xs ys)

  pub main-Subscribes :
      (S : Sdk T) (polkadot_spec asset_hub_spec : String) (polkadot asset_hub : List (Item T))
      → Subscribes S polkadot_spec asset_hub_spec polkadot asset_hub
      → main S polkadot_spec asset_hub_spec
        ≡ print_blocks (S.select (tag "Polkadot" polkadot) (tag "AssetHub" asset_hub))
  unfolding main run
  main-Subscribes S polkadot_spec asset_hub_spec polkadot asset_hub h =
      rw
        (
          h.relay_chain_ok, h.parachain_ok, h.polkadot_client_ok, h.asset_hub_client_ok,
          h.polkadot_sub_ok, h.asset_hub_sub_ok,
        )
        refl

  -- Where both chains are reached and the streams are merged, the lines of each chain are its
  -- blocks in the order of its subscription, each once, if the program ends without an error, and a
  -- beginning of these otherwise, however the streams are interleaved.
  pub main-InOrder :
      (S : Sdk T) (polkadot_spec asset_hub_spec : String) (polkadot asset_hub : List (Item T))
      → Selects S
      → Subscribes S polkadot_spec asset_hub_spec polkadot asset_hub
      → Emits
          (line_of "Polkadot")
          (map (line "Polkadot") (blocks_of polkadot))
          (main S polkadot_spec asset_hub_spec)
        × Emits
            (line_of "AssetHub")
            (map (line "AssetHub") (blocks_of asset_hub))
            (main S polkadot_spec asset_hub_spec)
  main-InOrder S polkadot_spec asset_hub_spec polkadot asset_hub selects h =
      let items = S.select (tag "Polkadot" polkadot) (tag "AssetHub" asset_hub) in
      let merged = selects (tag "Polkadot" polkadot) (tag "AssetHub" asset_hub) in
      let of_polkadot =
        project-Merges_left (item_line "Polkadot") merged
          (tag-other_lines "Polkadot" "AssetHub" asset_hub refl)
        ∙ tag-lines "Polkadot" polkadot refl in
      let of_asset_hub =
        project-Merges_left (item_line "AssetHub") (Merges-swap merged)
          (tag-other_lines "AssetHub" "Polkadot" polkadot refl)
        ∙ tag-lines "AssetHub" asset_hub refl in
      rw (main-Subscribes S polkadot_spec asset_hub_spec polkadot asset_hub h) (
        subst (λ ls. Emits (line_of "Polkadot") ls (print_blocks items)) of_polkadot
            (print_blocks-lines "Polkadot" _),
        subst (λ ls. Emits (line_of "AssetHub") ls (print_blocks items)) of_asset_hub
            (print_blocks-lines "AssetHub" _),
      )

  -- Items of blocks, and the lines of these.
  abbrev pub oks : List (String × Block T) → List (String × Item T)
  oks blocks = map (λ (chain, block). (chain, ok block)) blocks

  abbrev pub lines : List (String × Block T) → List (Line T)
  lines blocks = map (λ (chain, block). line chain block) blocks

  -- Blocks are printed until the first error, which ends the loop with that error, whatever comes
  -- after it; without an error all are printed.
  pub print_blocks-Until :
      (blocks : List (String × Block T)) (chain : String) (e : T.Error)
      (rest : List (String × Item T))
      → (print_blocks (oks blocks ++ ((chain, err e) ∷ rest)) ≡ (failed e, lines blocks))
        × (print_blocks (oks blocks) ≡ (done tt, lines blocks))
  unfolding print_blocks run
  print_blocks-Until [] chain e rest = (refl, refl)
  print_blocks-Until ((c, block) ∷ blocks) chain e rest =
      let (stops, ends) = print_blocks-Until blocks chain e rest in (rw (stops), rw (ends))
