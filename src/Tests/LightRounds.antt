-- ===== src/Tests/LightRounds.antt =====
-- A chain whose blocks never end, merged in turns with one that does.
use sub0_bangkok_challenges.Common.{
  ℕ, suc, String, Bool, true, false, Option, none, some, List, [], ◌∷◌, ok, err, ◌≡◌, refl, failed,
  run, ◌==◌, if◌then◌else◌, arith,
}
use sub0_bangkok_challenges.LightClient.{Types, Block, Item, line}
use sub0_bangkok_challenges.LightClient.Rounds.{StreamSdk, round, rounds, main_rounds}
use sub0_bangkok_challenges.LightClient.Rounds.Streams.{
  Yielded, ended, of_left, of_right, IsSelect, connected,
}
use sub0_bangkok_challenges.LightClient.Rounds.Termination.{now, later, Stops}
use sub0_bangkok_challenges.LightClient.Rounds.Program.{Runs, main_rounds-Runs, main_rounds-Stops}
use sub0_bangkok_challenges.LightClient.Rounds.Complete.{
  PrintsAll, at_end, after, main_rounds-PrintsAll,
}

abbrev pub types : Types
types = record { Error = String; Client = ℕ; Rpc = ℕ; Api = ℕ; Hash = ℕ }

abbrev pub block : ℕ → Block types
block n = record { hash = n; number = n }

-- The items of a list, or a block of every number from one on.
pub data Source : Type 0 where
  listed : List (Item types) → Source
  from : ℕ → Source

abbrev pub next_block : Source → Option (Item types × Source)
next_block (listed []) = none
next_block (listed (item ∷ items)) = some (item, listed items)
next_block (from n) = some (ok (block n), from (suc n))

-- Two tagged sources, and whether the first is asked first.
abbrev pub Both : Type 0
Both = Bool × (String × Source) × (String × Source)

-- The next of both, by what each has next: in turns while both have items.
abbrev pub pick :
    Bool
    → (l r : String × Source) → Option (Item types × Source)
    → Option (Item types × Source)
    → Option ((String × Item types) × Both)
pick b l r none none = none
pick b l r (some (item, sub)) none = some ((l.0, item), (b, (l.0, sub), r))
pick b l r none (some (item, sub)) = some ((r.0, item), (b, l, (r.0, sub)))
pick true l r (some (item, sub)) (some _) = some ((l.0, item), (false, (l.0, sub), r))
pick false l r (some _) (some (item, sub)) = some ((r.0, item), (true, l, (r.0, sub)))

-- The first client is 1 and the second 2.
abbrev pub sdk_of : (polkadot asset_hub : Source) → StreamSdk types
sdk_of polkadot asset_hub = record {
  Subscription = Source;
  Selected = Both;
  relay_chain = λ spec. ok (0, 1);
  parachain = λ client spec. ok 2;
  from_rpc_client = λ rpc. ok rpc;
  subscribe_finalized = λ api. if api == 1 then ok polkadot else ok asset_hub;
  next_block = next_block;
  select = λ l r. (true, l, r);
  next = λ (b, l, r). pick b l r (next_block l.1) (next_block r.1);
}

module _ (polkadot asset_hub : Source) where
  pub next-Yielded :
      (b : Bool) (l r : String × Source) (x y : Option (Item types × Source))
      → next_block l.1 ≡ x
      → next_block r.1 ≡ y
      → Yielded
          (sdk_of polkadot asset_hub)
          l
          r
          (λ (_, l', _). l')
          (λ (_, _, r'). r')
          (pick b l r x y)
  next-Yielded b l r none none ex ey = ended ex ey
  next-Yielded b l r (some (item, sub)) none ex ey = of_left sub ex refl refl
  next-Yielded b l r none (some (item, sub)) ex ey = of_right sub ey refl refl
  next-Yielded true l r (some (item, sub)) (some _) ex ey = of_left sub ex refl refl
  next-Yielded false l r (some _) (some (item, sub)) ex ey = of_right sub ey refl refl

  -- What is held of each source.
  abbrev pub halves : IsSelect (sdk_of polkadot asset_hub)
  halves = record {
    left_of = λ (_, l, _). l;
    right_of = λ (_, _, r). r;
    left_select = λ l r. refl;
    right_select = λ l r. refl;
    yields = λ (b, l, r). next-Yielded b l r (next_block l.1) (next_block r.1) refl refl;
  }

abbrev asset_hub : Source
asset_hub = listed (ok (block 7) ∷ err "lost" ∷ [])

-- The error of the second chain ends the program after three lines, whatever the limit.
three_lines :
    main_rounds (sdk_of (from 1) asset_hub) 9 "polkadot.json" "polkadot_asset_hub.json" ≡ (
      failed "lost",
      line "Polkadot" (block 1) ∷ line "AssetHub" (block 7) ∷ line "Polkadot" (block 2) ∷ [],
    )
unfolding main_rounds rounds round run
three_lines = refl

main_rounds-Runs_example :
    Runs
      (sdk_of (from 1) asset_hub)
      (halves (from 1) asset_hub)
      9
      (connected (sdk_of (from 1) asset_hub) "polkadot.json" "polkadot_asset_hub.json")
      (main_rounds (sdk_of (from 1) asset_hub) 9 "polkadot.json" "polkadot_asset_hub.json")
main_rounds-Runs_example =
    main_rounds-Runs (sdk_of (from 1) asset_hub) (halves (from 1) asset_hub) 9 "polkadot.json"
      "polkadot_asset_hub.json"

-- Two chains that end.
abbrev two_blocks : Source
two_blocks = listed (ok (block 1) ∷ ok (block 2) ∷ [])

abbrev one_block : Source
one_block = listed (ok (block 7) ∷ [])

abbrev calm_sdk : StreamSdk types
calm_sdk = sdk_of two_blocks one_block

connected_calm :
    connected calm_sdk "polkadot.json" "polkadot_asset_hub.json" ≡ ok (two_blocks, one_block)
unfolding connected
connected_calm = refl

main_rounds-Stops_example :
    Stops calm_sdk (main_rounds calm_sdk 4 "polkadot.json" "polkadot_asset_hub.json").0
    × (main_rounds calm_sdk 100 "polkadot.json" "polkadot_asset_hub.json"
        ≡ main_rounds calm_sdk 4 "polkadot.json" "polkadot_asset_hub.json")
main_rounds-Stops_example =
    main_rounds-Stops calm_sdk (halves two_blocks one_block) 4 100 2 1 "polkadot.json"
      "polkadot_asset_hub.json" two_blocks one_block connected_calm
      (later refl (later refl (now refl))) (later refl (now refl)) (omega arith) (omega arith)

main_rounds-PrintsAll_example :
    PrintsAll calm_sdk
      (line "Polkadot" (block 1) ∷ line "Polkadot" (block 2) ∷ [])
      (line "AssetHub" (block 7) ∷ [])
      (main_rounds calm_sdk 4 "polkadot.json" "polkadot_asset_hub.json")
main_rounds-PrintsAll_example =
    main_rounds-PrintsAll calm_sdk (halves two_blocks one_block) 4 "polkadot.json"
      "polkadot_asset_hub.json" two_blocks one_block (block 1 ∷ block 2 ∷ []) (block 7 ∷ [])
      connected_calm (after refl (after refl (at_end refl))) (after refl (at_end refl))
      (omega arith)

-- What these chains yield together.
abbrev items : List (String × Item types)
items = ("Polkadot", ok (block 1)) ∷ ("AssetHub", ok (block 7)) ∷ ("Polkadot", ok (block 2)) ∷ []
