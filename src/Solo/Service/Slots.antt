-- ===== src/Solo/Service/Slots.antt =====
-- The slots of the author and of the import queue.
use sub0_bangkok_challenges.Common.{
  ◌≡◌, refl, ap, ℕ, Option, none, some, [], ◌∷◌, Result, ok, err, opt, done, lift,
}
use sub0_bangkok_challenges.Common.Emits.{
  Emits, Emits-bind, Emits-bind_ok, Emits-then, Emits-after, Emits-pure, Emits-lift, Emits-drop,
  Emits-keep, Emits-when, Emits-when_silent, silent,
}
use sub0_bangkok_challenges.Node.Task.{Configuration, is_authority}
use sub0_bangkok_challenges.Solo.Service.{
  Types, Event, importing, author, Inherents, Sdk, Node, start_authoring, start_voter, new_partial,
  new_full, import_inherents, import_queue_params, author_inherents, aura_params,
}
use sub0_bangkok_challenges.Solo.Service.Silent.{
  Drops, start_telemetry-silent, spawn_telemetry-silent, build_network-silent,
  spawn_offchain_workers-silent, spawn_rpc-silent,
}

-- Who makes inherents, with how it makes them from the time: the import queue, which checks a block
-- with them, and the author, who puts them into a block.
pub data Maker (T : Types) : Type 0 where
  imports : Inherents T → Maker T
  authors : Inherents T → Maker T

-- The makers of the inherents of a block with this parent.
abbrev pub maker_at : {T : Types} → T.Hash → Event T → Option (Maker T)
maker_at parent_hash (importing params) =
    some (imports (params.create_inherent_data_providers parent_hash))
maker_at parent_hash (author params) = some (authors params.create_inherent_data_providers)
maker_at parent_hash _ = none

maker_at-Drops : {T : Types} (parent_hash : T.Hash) → Drops (maker_at {T = T} parent_hash)
maker_at-Drops parent_hash = record {
  spawned_dropped = λ _. refl;
  lent_dropped = λ _ _. refl;
  workers_dropped = λ _. refl;
}

-- The time, and its slot among those of this duration.
abbrev pub slots : {T : Types} → Sdk T → ℕ → Inherents T
slots S slot_duration timestamp = ok (S.slot_from_timestamp timestamp slot_duration, timestamp)

lift_ok :
    {X A : Type 0} (E : Type 0) (r : Result X A) (a b : A)
    → r ≡ ok a
    → (lift {E = E} r).0 ≡ done b
    → b ≡ a
unfolding lift
lift_ok E (ok c) a b e h = cc
lift_ok E (err x) a b e h = cc

module _ {T : Types} (S : Sdk T) (slot_duration : ℕ) (parent_hash : T.Hash) where
  import_inherents-at :
      (client : T.Client) (timestamp : ℕ)
      → S.slot_duration_at client parent_hash ≡ ok slot_duration
      → import_inherents S client parent_hash timestamp ≡ slots S slot_duration timestamp
  unfolding import_inherents
  import_inherents-at client timestamp e = rw e

  import_inherents-slots :
      (client : T.Client)
      → S.slot_duration_at client parent_hash ≡ ok slot_duration
      → import_inherents S client parent_hash ≡ slots S slot_duration
  import_inherents-slots client e = λ i timestamp. import_inherents-at client timestamp e i

  new_partial-imports :
      ((client : T.Client) → S.slot_duration_at client parent_hash ≡ ok slot_duration)
      → (config : Configuration)
      → Emits (maker_at parent_hash) (imports (slots S slot_duration) ∷ []) (new_partial S config)
  unfolding new_partial import_queue_params
  new_partial-imports e config =
      let d = maker_at-Drops parent_hash in
      Emits-after (start_telemetry-silent S d _) λ started.
        Emits-after (Emits-lift _) λ (client, _, _).
          Emits-after (spawn_telemetry-silent S d started) λ _. Emits-after (Emits-drop _ refl) λ _.
            Emits-after (Emits-lift _) λ _. Emits-after (Emits-drop _ refl) λ _.
              Emits-after (Emits-lift _) λ _.
                Emits-then
                  (Emits-keep _
                    (ap (λ f. some (imports f)) (import_inherents-slots client (e client))))
                  (λ _. Emits-pure _)

  module _ (config : Configuration) (n : Node S) where
    start_authoring-authors :
        S.slot_duration n.partial.client ≡ ok slot_duration
        → Emits
            (maker_at parent_hash)
            (authors (slots S slot_duration) ∷ [])
            (start_authoring S config n)
    unfolding start_authoring aura_params author_inherents
    start_authoring-authors e = Emits-after (Emits-drop _ refl) λ _.
        Emits-bind_ok [] _ _ (Emits-lift _) λ read h. Emits-after (Emits-lift _) λ _.
          Emits-then
            (Emits-keep _
              (ap (λ d. some (authors (slots S d))) (lift_ok _ _ slot_duration read e h)))
            (λ _. Emits-drop _ refl)

    start_voter-silent : Emits (maker_at parent_hash) [] (start_voter S config n)
    unfolding start_voter
    start_voter-silent = search silent depth 12

  -- Where the slot duration is one and the same at the start of the node and at the parent of a
  -- block, the import queue of the node checks the block with the time and its slot of this
  -- duration, at every time, and the author that an authority starts, which comes later, puts the
  -- same into it. A node of another role has no author. A node that does not start has made a
  -- beginning of this list.
  pub new_full-Inherents :
      ((client : T.Client) → S.slot_duration client ≡ ok slot_duration)
      → ((client : T.Client) → S.slot_duration_at client parent_hash ≡ ok slot_duration)
      → (config : Configuration)
      → Emits
          (maker_at parent_hash)
          (imports (slots S slot_duration)
            ∷ opt (is_authority config.role) (authors (slots S slot_duration)))
          (new_full S config)
  unfolding new_full
  new_full-Inherents e e' config =
      let d = maker_at-Drops parent_hash in
      Emits-then
        (Emits-bind (new_partial-imports e' config) λ p.
          Emits-after (build_network-silent S d config p) λ n.
            Emits-after (Emits-when_silent _ _ (spawn_offchain_workers-silent S d config n)) λ _.
              Emits-after (spawn_rpc-silent S d config n) λ _.
                Emits-then
                  (Emits-when _ _ (λ _. start_authoring-authors config n (e n.partial.client)))
                  λ _.
                    Emits-after (Emits-when_silent _ _ (start_voter-silent config n))
                      (λ _. Emits-pure n))
        (λ _. Emits-drop _ refl)
