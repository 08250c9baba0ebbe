-- ===== src/LightClient/Rounds/Complete.antt =====
-- What is printed of subscriptions that end and do not fail.
use mathlib.Core.List.{append-nil}
use sub0_bangkok_challenges.Common.{
  ℕ, ◌+◌, ◌≤◌, ◌<◌, ◌≡◌, refl, sym, ap, subst, ◌∙◌, inl, inr, length-append, String, Option, none,
  some, List, [], ◌∷◌, ◌++◌, map, length, ok, Outcome, done, failed, panicked, arith,
}
use sub0_bangkok_challenges.LightClient.{Types, Block, Line, Run, line}
use sub0_bangkok_challenges.LightClient.Merge.{Merges}
use sub0_bangkok_challenges.LightClient.Rounds.{StreamSdk, main_rounds}
use sub0_bangkok_challenges.LightClient.Rounds.Streams.{
  IsSelect, Yields, nothing, one_more, FailsWith, Ending, Account, connected,
}
use sub0_bangkok_challenges.LightClient.Rounds.Program.{main_rounds-Runs, Runs}

module _ {T : Types} (S : StreamSdk T) where
  open S use {Subscription, next_block}

  -- The subscription yields exactly these blocks and ends.
  pub data EndsAfter : Subscription → List (Block T) → Type 0 where
    at_end : {sub : Subscription} → next_block sub ≡ none → EndsAfter sub []
    after :
        {sub later : Subscription} {block : Block T} {blocks : List (Block T)}
        → next_block sub ≡ some (ok block, later)
        → EndsAfter later blocks
        → EndsAfter sub (block ∷ blocks)

  block_unique :
      {sub a b : Subscription} {x y : Block T}
      → next_block sub ≡ some (ok x, a)
      → next_block sub ≡ some (ok y, b)
      → (x ≡ y) × (a ≡ b)
  block_unique e f = (cc, cc)

  -- What is left of it after some blocks.
  EndsAfter-rest :
      {sub mid : Subscription} {seen blocks : List (Block T)}
      → Yields S sub seen mid
      → EndsAfter sub blocks
      → (rest : List (Block T)) × EndsAfter mid rest × (blocks ≡ seen ++ rest)
  EndsAfter-rest {blocks = blocks} nothing a = (blocks, a, refl)
  EndsAfter-rest (one_more e y) (at_end f) = absurd (cc)
  EndsAfter-rest (one_more {block = block} e y) (after {blocks = blocks} f a) =
      let (same, same_later) = block_unique e f in
      let (rest, r, eq) =
        EndsAfter-rest y (subst (λ sub. EndsAfter sub blocks) (sym same_later) a) in
      (rest, r, ap (λ b. b ∷ blocks) (sym same) ∙ ap (λ bs. block ∷ bs) eq)

  EndsAfter-ended :
      {sub : Subscription} {rest : List (Block T)}
      → EndsAfter sub rest
      → next_block sub ≡ none
      → rest ≡ []
  EndsAfter-ended (at_end f) e = refl
  EndsAfter-ended (after f a) e = cc

  EndsAfter-NeverFails :
      {sub : Subscription} {rest : List (Block T)} {x : T.Error}
      → EndsAfter sub rest
      → ¬ FailsWith S sub x
  EndsAfter-NeverFails (at_end f) (later, e) = cc
  EndsAfter-NeverFails (after f a) (later, e) = cc

  -- A run that has printed everything.
  abbrev pub PrintsAll : List (Line T) → List (Line T) → Run T (Option S.Selected) → Type 0
  PrintsAll xs ys m = (ls : List (Line T)) × (m ≡ (done none, ls)) × Merges xs ys ls

  length_beginning :
      {blocks : List (Block T)} (seen rest : List (Block T))
      → blocks ≡ seen ++ rest
      → length seen ≤ length blocks
  length_beginning seen rest e =
      subst (λ bs. length seen ≤ length bs) (sym e) (omega (arith, length-append seen rest))

  all_of :
      {blocks : List (Block T)} (seen rest : List (Block T))
      → blocks ≡ seen ++ rest
      → rest ≡ []
      → blocks ≡ seen
  all_of seen rest e none_left = e ∙ ap (λ r. seen ++ r) none_left ∙ append-nil seen

  module _ (h : IsSelect S) where
    BothEnded-of :
        (n k : ℕ) (l r : String × Subscription) {left_rest right_rest : List (Block T)}
        (o : Outcome T.Error (Option S.Selected))
        → k < n
        → EndsAfter l.1 left_rest
        → EndsAfter r.1 right_rest
        → Ending S h n k l r o
        → (o ≡ done none) × (left_rest ≡ []) × (right_rest ≡ [])
    BothEnded-of n k l r (done none) lt el er (left_none, right_none) =
        (refl, EndsAfter-ended el left_none, EndsAfter-ended er right_none)
    BothEnded-of n k l r (done (some stream)) lt el er (reached, _, _) = absurd (omega arith)
    BothEnded-of n k l r (failed e) lt el er (inl fails) = absurd (EndsAfter-NeverFails el fails)
    BothEnded-of n k l r (failed e) lt el er (inr fails) = absurd (EndsAfter-NeverFails er fails)
    BothEnded-of n k l r (panicked s) lt el er e = absurd e

    PrintsAll-of :
        (n : ℕ) (l r : String × Subscription) (left_blocks right_blocks : List (Block T))
        (m : Run T (Option S.Selected))
        → EndsAfter l.1 left_blocks
        → EndsAfter r.1 right_blocks
        → length left_blocks + length right_blocks < n
        → Account S h n l r m
        → PrintsAll (map (line l.0) left_blocks) (map (line r.0) right_blocks) m
    PrintsAll-of n l r left_blocks right_blocks m el er lt a =
        let (left_rest, left_left, left_eq) = EndsAfter-rest a.left_yields el in
        let (right_rest, right_left, right_eq) = EndsAfter-rest a.right_yields er in
        let fewer_left = length_beginning a.left_blocks left_rest left_eq in
        let fewer_right = length_beginning a.right_blocks right_rest right_eq in
        let (ended, no_left, no_right) =
          BothEnded-of n _ _ _ m.0 (omega (arith, fewer_left, fewer_right, lt)) left_left right_left
            a.ending in
        (
          m.1,
          ap (λ o. (o, m.1)) ended,
          subst (λ bs. Merges (map (line l.0) bs) (map (line r.0) right_blocks) m.1)
              (sym (all_of a.left_blocks left_rest left_eq no_left))
              (subst (λ bs. Merges (map (line l.0) a.left_blocks) (map (line r.0) bs) m.1)
                (sym (all_of a.right_blocks right_rest right_eq no_right)) a.printed),
        )

  -- If both chains are reached, the merged stream yields the items of either subscription in order,
  -- and each subscription yields its blocks without an error and ends, the
  -- program ends without an error within any limit above the number of blocks, and what it has
  -- printed is a merge of the lines of both chains: each block of either once, those of a chain in
  -- their order, and nothing else.
  pub main_rounds-PrintsAll :
      (h : IsSelect S) (n : ℕ) (polkadot_spec asset_hub_spec : String)
      (polkadot asset_hub : Subscription) (polkadot_blocks asset_hub_blocks : List (Block T))
      → connected S polkadot_spec asset_hub_spec ≡ ok (polkadot, asset_hub)
      → EndsAfter polkadot polkadot_blocks
      → EndsAfter asset_hub asset_hub_blocks
      → length polkadot_blocks + length asset_hub_blocks < n
      → PrintsAll
          (map (line "Polkadot") polkadot_blocks)
          (map (line "AssetHub") asset_hub_blocks)
          (main_rounds S n polkadot_spec asset_hub_spec)
  main_rounds-PrintsAll h n p q polkadot asset_hub polkadot_blocks asset_hub_blocks e el er lt =
      PrintsAll-of h n ("Polkadot", polkadot) ("AssetHub", asset_hub) polkadot_blocks
        asset_hub_blocks (main_rounds S n p q) el er lt
        (subst (λ c. Runs S h n c (main_rounds S n p q)) e (main_rounds-Runs S h n p q))
