-- ===== src/Solo/Service/Consensus.antt =====
-- What the two consensus tasks are given.
use sub0_bangkok_challenges.Common.{
  is_some, ℕ, ◌≡◌, refl, Bool, not, Option, none, some, List, [], ◌∷◌, ◌++◌, arith, opt,
}
use sub0_bangkok_challenges.Common.Emits.{
  Emits, Emits-bind, Emits-then, Emits-after, Emits-pure, Emits-lift, Emits-drop, Emits-keep,
  Emits-when, silent,
}
use sub0_bangkok_challenges.Node.Task.{Configuration, Role, is_authority}
use sub0_bangkok_challenges.Solo.Service.{
  Types, Event, voter, author, Sdk, Node, start_authoring, start_voter, grandpa_params, new_full,
}
use sub0_bangkok_challenges.Solo.Service.Silent.{
  Drops, new_partial-silent, build_network-silent, spawn_offchain_workers-silent, spawn_rpc-silent,
}

-- A consensus task, with what its parameters say of the node's part in it.
pub data Duty : Type 0 where
  authors : (force : Bool) → Duty
  votes : (signs : Bool) (role : Role) (justification_period : ℕ) → Duty

abbrev pub duty_of : {T : Types} → Event T → Option Duty
duty_of (author p) = some (authors p.force_authoring)
duty_of (voter p) = some (votes (is_some p.keystore) p.local_role p.justification_generation_period)
duty_of _ = none

duty_of-Drops : {T : Types} → Drops (duty_of {T = T})
duty_of-Drops = record {
  spawned_dropped = λ _. refl;
  lent_dropped = λ _ _. refl;
  workers_dropped = λ _. refl;
}

-- Only an authority authors blocks and signs votes; any other node follows the vote unsigned.
unfoldable pub duties : Configuration → List Duty
duties config =
    opt (is_authority config.role) (authors config.force_authoring)
    ++ opt (not config.disable_grandpa) (votes (is_authority config.role) config.role 512)

module _ {T : Types} (S : Sdk T) where
  module _ (config : Configuration) (n : Node S) where
    start_authoring-duty :
        Emits duty_of (authors config.force_authoring ∷ []) (start_authoring S config n)
    unfolding start_authoring
    start_authoring-duty = Emits-after (Emits-drop _ refl) λ _.
        Emits-after (Emits-lift _) λ _.
          Emits-after (Emits-lift _) λ _. Emits-then (Emits-keep _ refl) (λ _. Emits-drop _ refl)

    grandpa_params-duty :
        duty_of {T = T} (voter (grandpa_params S config n))
        ≡ some (votes (is_authority config.role) config.role 512)
    unfolding grandpa_params
    grandpa_params-duty = ground arith

    start_voter-duty :
        Emits duty_of
          (votes (is_authority config.role) config.role 512 ∷ [])
          (start_voter S config n)
    unfolding start_voter
    start_voter-duty =
        Emits-after (Emits-lift _)
          λ _. Emits-then (Emits-keep _ grandpa_params-duty) (λ _. Emits-drop _ refl)

  -- If the node starts, its consensus tasks are exactly those of its duties: a block author if the
  -- node is an authority, and, unless GRANDPA is disabled, a voter that holds the keystore exactly
  -- if the node is an authority. If the node does not start, they are a beginning of that list.
  pub new_full-duties : (config : Configuration) → Emits duty_of (duties config) (new_full S config)
  unfolding new_full duties
  new_full-duties config =
      Emits-then
        (Emits-after (new_partial-silent S duty_of-Drops (λ _. refl) config) λ p.
          Emits-after (build_network-silent S duty_of-Drops config p) λ n.
            Emits-after (search (silent, spawn_offchain_workers-silent S duty_of-Drops config n))
              λ _. Emits-after (spawn_rpc-silent S duty_of-Drops config n) λ _.
                Emits-bind (Emits-when _ _ (λ _. start_authoring-duty config n)) λ _.
                  Emits-then (Emits-when _ _ (λ _. start_voter-duty config n)) (λ _. Emits-pure n))
        (λ _. Emits-drop _ refl)
