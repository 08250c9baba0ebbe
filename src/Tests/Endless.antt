-- ===== src/Tests/Endless.antt =====
-- Two chains whose blocks never end, merged in turns.
use sub0_bangkok_challenges.Common.{
  ℕ, suc, Bool, true, false, String, Option, none, some, [], ◌∷◌, ok, err, ◌≡◌, refl, sym, subst,
}
use sub0_bangkok_challenges.LightClient.{Block, Item, line}
use sub0_bangkok_challenges.LightClient.Rounds.{StreamSdk, main_rounds}
use sub0_bangkok_challenges.LightClient.Rounds.Streams.{Yields, nothing, one_more, connected}
use sub0_bangkok_challenges.LightClient.Rounds.Fair.{
  NeverFails, Comes, now, later, IsFair, PrintsWithin, main_rounds-PrintsWithin,
}
use sub0_bangkok_challenges.Tests.LightRounds.{
  types, block, Source, from, Both, next_block, sdk_of, halves,
}

abbrev sdk : StreamSdk types
sdk = sdk_of (from 1) (from 7)

abbrev left_of : Both → String × Source
left_of (_, l, _) = l

abbrev right_of : Both → String × Source
right_of (_, _, r) = r

-- When it is the turn of a source that has a block, this is next.
left_turn :
    (l r : String × Source) (item : Item types) (sub : Source)
    → next_block l.1 ≡ some (item, sub)
    → (y : Option (Item types × Source)) → next_block r.1 ≡ y
    → Comes sdk left_of right_of (true, l, r)
left_turn l r item sub e none ey =
    now {rest = (true, (l.0, sub), r)} sub (rw (e, ey) refl) e refl refl
left_turn l r item sub e (some y) ey =
    now {rest = (false, (l.0, sub), r)} sub (rw (e, ey) refl) e refl refl

right_turn :
    (l r : String × Source) (item : Item types) (sub : Source)
    → next_block r.1 ≡ some (item, sub)
    → (x : Option (Item types × Source)) → next_block l.1 ≡ x
    → Comes sdk right_of left_of (false, l, r)
right_turn l r item sub e none ex =
    now {rest = (false, l, (r.0, sub))} sub (rw (e, ex) refl) e refl refl
right_turn l r item sub e (some x) ex =
    now {rest = (true, l, (r.0, sub))} sub (rw (e, ex) refl) e refl refl

left-Comes :
    (b : Bool) (l r : String × Source) (item : Item types) (sub : Source)
    → next_block l.1 ≡ some (item, sub)
    → NeverFails sdk r.1
    → (y : Option (Item types × Source)) → next_block r.1 ≡ y
    → Comes sdk left_of right_of (b, l, r)
left-Comes true l r item sub e safe y ey = left_turn l r item sub e y ey
left-Comes false l r item sub e safe none ey =
    now {rest = (false, (l.0, sub), r)} sub (rw (e, ey) refl) e refl refl
left-Comes false l r item sub e safe (some (err x, sub')) ey =
    absurd (safe [] r.1 x nothing (sub', ey))
left-Comes false l r item sub e safe (some (ok b, sub')) ey =
    later {rest = (true, l, (r.0, sub'))} sub' (rw (e, ey) refl) ey refl refl
      (left_turn l (r.0, sub') item sub e (next_block sub') refl)

right-Comes :
    (b : Bool) (l r : String × Source) (item : Item types) (sub : Source)
    → next_block r.1 ≡ some (item, sub)
    → NeverFails sdk l.1
    → (x : Option (Item types × Source)) → next_block l.1 ≡ x
    → Comes sdk right_of left_of (b, l, r)
right-Comes false l r item sub e safe x ex = right_turn l r item sub e x ex
right-Comes true l r item sub e safe none ex =
    now {rest = (true, l, (r.0, sub))} sub (rw (e, ex) refl) e refl refl
right-Comes true l r item sub e safe (some (err x, sub')) ex =
    absurd (safe [] l.1 x nothing (sub', ex))
right-Comes true l r item sub e safe (some (ok b, sub')) ex =
    later {rest = (false, (l.0, sub'), r)} sub' (rw (e, ex) refl) ex refl refl
      (right_turn (l.0, sub') r item sub e (next_block sub') refl)

left-IsFair : IsFair sdk left_of right_of
left-IsFair (b, l, r) block sub e safe =
    left-Comes b l r (ok block) sub e safe (next_block r.1) refl

right-IsFair : IsFair sdk right_of left_of
right-IsFair (b, l, r) block sub e safe =
    right-Comes b l r (ok block) sub e safe (next_block l.1) refl

from_unique :
    (n : ℕ) {later : Source} {block : Block types}
    → next_block (from n) ≡ some (ok block, later)
    → from (suc n) ≡ later
from_unique n e = cc

from-NeverFails : (n : ℕ) → NeverFails sdk (from n)
from-NeverFails n [] last e nothing (_, x) = cc
from-NeverFails n (b ∷ blocks) last e (one_more {later = rest} f y) fails =
    from-NeverFails (suc n) blocks last e
      (subst (λ s. Yields sdk s blocks last) (sym (from_unique n f)) y) fails

connected_endless : connected sdk "polkadot.json" "polkadot_asset_hub.json" ≡ ok (from 1, from 7)
unfolding connected
connected_endless = refl

main_rounds-PrintsWithin_example :
    PrintsWithin sdk
      (line "Polkadot" (block 1) ∷ line "Polkadot" (block 2) ∷ [])
      (λ n. (main_rounds sdk n "polkadot.json" "polkadot_asset_hub.json").1)
    × PrintsWithin sdk
        (line "AssetHub" (block 7) ∷ [])
        (λ n. (main_rounds sdk n "polkadot.json" "polkadot_asset_hub.json").1)
main_rounds-PrintsWithin_example =
    main_rounds-PrintsWithin sdk (halves (from 1) (from 7)) "polkadot.json"
      "polkadot_asset_hub.json" (from 1) (from 7) (from 3) (from 8) (block 1 ∷ block 2 ∷ [])
      (block 7 ∷ []) connected_endless left-IsFair right-IsFair (from-NeverFails 1)
      (from-NeverFails 7) (one_more refl (one_more refl nothing)) (one_more refl nothing)
