-- ===== src/LightClient/Rounds/Fair.antt =====
-- What is printed of subscriptions that never end, where the merge of the streams is fair.
use sub0_bangkok_challenges.Common.{
  ℕ, zero, suc, ◌≡◌, refl, sym, ap, subst, ◌∙◌, String, Option, some, List, [], ◌∷◌, map, ok, run,
}
use sub0_bangkok_challenges.LightClient.{Types, Block, Item, Line, line}
use sub0_bangkok_challenges.LightClient.Merge.{Merges, both_end, left, right}
use sub0_bangkok_challenges.LightClient.Rounds.{StreamSdk, round, rounds, main_rounds}
use sub0_bangkok_challenges.LightClient.Rounds.Streams.{
  IsSelect, Yields, nothing, one_more, FailsWith, connected,
}
use sub0_bangkok_challenges.LightClient.Rounds.Program.{main_rounds-rounds}

module _ {T : Types} (S : StreamSdk T) where
  open S use {Subscription, Selected, next_block, next}

  -- It never yields an error.
  abbrev pub NeverFails : Subscription → Type 0
  NeverFails sub =
      (blocks : List (Block T)) (later : Subscription) (e : T.Error)
      → Yields S sub blocks later
      → ¬ FailsWith S later e

  NeverFails-later :
      {sub later : Subscription} {block : Block T}
      → next_block sub ≡ some (ok block, later)
      → NeverFails sub
      → NeverFails later
  NeverFails-later e h blocks last x y = h (_ ∷ blocks) last x (one_more e y)

  item_unique :
      {sub a b : Subscription} {block : Block T} {item : Item T}
      → next_block sub ≡ some (ok block, a)
      → next_block sub ≡ some (item, b)
      → (ok block ≡ item) × (a ≡ b)
  item_unique e f = (cc, cc)

  -- One more line.
  round-lines :
      (n : ℕ) (stream rest : Selected) (chain : String) (block : Block T)
      → next stream ≡ some ((chain, ok block), rest)
      → (rounds S (suc n) stream).1 ≡ line chain block ∷ (rounds S n rest).1
  unfolding rounds round run
  round-lines n stream rest chain block e = rw (e) refl

  own_later :
      {a tag : String} {sub sub' : Subscription}
      → a ≡ tag
      → sub ≡ sub'
      → ◌≡◌ {A = String × Subscription} (a, sub') (tag, sub)
  own_later t e = cc

  own_item :
      {a tag : String} {block : Block T} {item : Item T}
      → a ≡ tag
      → ok block ≡ item
      → (rest : Selected)
      → ◌≡◌ {A = Option ((String × Item T) × Selected)}
          (some ((a, item), rest))
          (some ((tag, ok block), rest))
  own_item t e rest = cc

  -- What the merged stream holds of the one subscription and of the other.
  module _ (own other : Selected → String × Subscription) where
    -- The one's next item comes, after some blocks of the other.
    pub data Comes : Selected → Type 0 where
      now :
          {stream rest : Selected} {item : Item T} (sub : Subscription)
          → next stream ≡ some (((own stream).0, item), rest)
          → next_block (own stream).1 ≡ some (item, sub)
          → own rest ≡ ((own stream).0, sub)
          → other rest ≡ other stream
          → Comes stream
      later :
          {stream rest : Selected} {block : Block T} (sub : Subscription)
          → next stream ≡ some (((other stream).0, ok block), rest)
          → next_block (other stream).1 ≡ some (ok block, sub)
          → own rest ≡ own stream
          → other rest ≡ ((other stream).0, sub)
          → Comes rest
          → Comes stream

    -- No block waits for ever while the other subscription does not fail.
    abbrev pub IsFair : Type 0
    IsFair =
        (stream : Selected) (block : Block T) (sub : Subscription)
        → next_block (own stream).1 ≡ some (ok block, sub)
        → NeverFails (other stream).1
        → Comes stream

    -- After some number of rounds just these lines are printed, among others.
    abbrev pub Prints : List (Line T) → Selected → Type 0
    Prints ls stream = (n : ℕ) × (others : List (Line T)) × Merges ls others (rounds S n stream).1

    Comes-Prints :
        (block : Block T) (blocks : List (Block T)) (tag : String) (sub : Subscription)
        → ((rest : Selected)
            → own rest ≡ (tag, sub)
            → NeverFails (other rest).1
            → Prints (map (line tag) blocks) rest)
        → (stream : Selected) → (own stream).0 ≡ tag
        → next_block (own stream).1 ≡ some (ok block, sub)
        → NeverFails (other stream).1
        → Comes stream
        → Prints (map (line tag) (block ∷ blocks)) stream
    Comes-Prints block blocks tag sub ih stream t e safe
          (now {rest = rest} {item = item} sub' en eb eo er) =
        let (same, same_sub) = item_unique e eb in
        let (n, others, m) =
          ih rest (eo ∙ own_later t same_sub) (subst (λ r. NeverFails r.1) (sym er) safe) in
        (
          suc n,
          others,
          subst (Merges _ others)
              (sym (round-lines n stream rest tag block (en ∙ own_item t same rest))) (left m),
        )
    Comes-Prints block blocks tag sub ih stream t e safe
          (later {rest = rest} {block = b} sub' en eb eo er c) =
        let (n, others, m) =
          Comes-Prints block blocks tag sub ih rest (ap (λ p. p.0) eo ∙ t)
            (ap (λ p. next_block p.1) eo ∙ e)
            (subst (λ r. NeverFails r.1) (sym er) (NeverFails-later eb safe)) c in
        (
          suc n,
          line (other stream).0 b ∷ others,
          subst (Merges _ (line (other stream).0 b ∷ others))
              (sym (round-lines n stream rest (other stream).0 b en)) (right m),
        )

    Yields-Prints :
        (tag : String) (sub : Subscription) (blocks : List (Block T)) (last : Subscription)
        → IsFair
        → Yields S sub blocks last
        → (stream : Selected) → own stream ≡ (tag, sub)
        → NeverFails (other stream).1
        → Prints (map (line tag) blocks) stream
    unfolding rounds run
    Yields-Prints tag sub [] last fair nothing stream eo safe = (zero, [], both_end)
    Yields-Prints tag sub (block ∷ blocks) last fair (one_more {later = rest} e y) stream eo safe =
        let e' = ap (λ p. next_block p.1) eo ∙ e in
        Comes-Prints block blocks tag rest (Yields-Prints tag rest blocks last fair y) stream
          (ap (λ p. p.0) eo) e' safe (fair stream block rest e' safe)

  -- These lines are printed, among others, within some number of rounds of the program.
  abbrev pub PrintsWithin : List (Line T) → (ℕ → List (Line T)) → Type 0
  PrintsWithin ls printed = (n : ℕ) × (others : List (Line T)) × Merges ls others (printed n)

  -- If both chains are reached, the merged stream yields the items of either in order, neither
  -- subscription ever fails and the merge is fair to both, then
  -- whatever blocks a subscription yields, each of them is printed with its chain's name, in their
  -- order, after enough rounds, though both subscriptions may go on for ever.
  pub main_rounds-PrintsWithin :
      (h : IsSelect S) (polkadot_spec asset_hub_spec : String)
      (polkadot asset_hub polkadot_last asset_hub_last : Subscription)
      (polkadot_blocks asset_hub_blocks : List (Block T))
      → connected S polkadot_spec asset_hub_spec ≡ ok (polkadot, asset_hub)
      → IsFair h.left_of h.right_of
      → IsFair h.right_of h.left_of
      → NeverFails polkadot
      → NeverFails asset_hub
      → Yields S polkadot polkadot_blocks polkadot_last
      → Yields S asset_hub asset_hub_blocks asset_hub_last
      → PrintsWithin
          (map (line "Polkadot") polkadot_blocks)
          (λ n. (main_rounds S n polkadot_spec asset_hub_spec).1)
        × PrintsWithin
            (map (line "AssetHub") asset_hub_blocks)
            (λ n. (main_rounds S n polkadot_spec asset_hub_spec).1)
  main_rounds-PrintsWithin h p q polkadot asset_hub pl al ps as_ e fair_l fair_r safe_l safe_r yl
        yr =
      let l : String × Subscription = ("Polkadot", polkadot) in
      let r : String × Subscription = ("AssetHub", asset_hub) in
      let el = h.left_select l r in
      let er = h.right_select l r in
      let (n, others, m) =
        Yields-Prints h.left_of h.right_of "Polkadot" polkadot ps pl fair_l yl (S.select l r) el
          (subst (λ x. NeverFails x.1) (sym er) safe_r) in
      let (n', others', m') =
        Yields-Prints h.right_of h.left_of "AssetHub" asset_hub as_ al fair_r yr (S.select l r) er
          (subst (λ x. NeverFails x.1) (sym el) safe_l) in
      (
        (n, others, rw (main_rounds-rounds S n p q polkadot asset_hub e) m),
        (n', others', rw (main_rounds-rounds S n' p q polkadot asset_hub e) m'),
      )
