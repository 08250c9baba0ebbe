-- ===== src/Solo/Service/OnRuntime.antt =====
-- The solochain's node over a client that answers from this repository's runtime.
use sub0_bangkok_challenges.Common.{ℕ, ok, opt, ◌∷◌, done, ◌≡◌, refl}
use sub0_bangkok_challenges.Common.Emits.{Emits}
use sub0_bangkok_challenges.Node.Task.{Configuration, is_authority}
use sub0_bangkok_challenges.Runtime.Constants.{millisecs_per_block}
use sub0_bangkok_challenges.Runtime.Apis.Calls as Calls
use sub0_bangkok_challenges.Runtime.Apis.Calls.{Pallets}
use sub0_bangkok_challenges.Runtime.Apis.Consensus as Consensus
use sub0_bangkok_challenges.Solo.Service.{Types, Sdk, new_full}
use sub0_bangkok_challenges.Solo.Service.Slots.{
  maker_at, imports, authors, slots, new_full-Inherents,
}

-- The client's `slot_duration` is the runtime's function, called on the state of a block: the best
-- block at the start of the node, and the parent of a block that is imported.
pub record AnswersFrom {T : Types} (S : Sdk T) {R : Calls.Types} (P : Pallets R) : Type 0 where
  pub best : T.Client → R.State
  pub state_at : T.Client → T.Hash → R.State
  pub at_start :
      (client : T.Client) (d : ℕ)
      → (Consensus.slot_duration P (best client)).0 ≡ done d
      → S.slot_duration client ≡ ok d
  pub at_block :
      (client : T.Client) (hash : T.Hash) (d : ℕ)
      → (Consensus.slot_duration P (state_at client hash)).0 ≡ done d
      → S.slot_duration_at client hash ≡ ok d

module _ {T : Types} (S : Sdk T) {R : Calls.Types} (P : Pallets R) (a : AnswersFrom S P) where
  runtime_duration : (s : R.State) → (Consensus.slot_duration P s).0 ≡ done millisecs_per_block
  unfolding Consensus.slot_duration
  runtime_duration s = refl

  -- Where the client answers from this runtime, the import queue of the node checks a block, for
  -- every parent and at every time, with the time and its slot, and the author that an authority
  -- starts puts the same into it; the slots are as long as the time of a block in the runtime. A
  -- node that does not start has made a beginning of this list.
  pub new_full-RuntimeSlots :
      (parent_hash : T.Hash) (config : Configuration)
      → Emits
          (maker_at parent_hash)
          (imports (slots S millisecs_per_block)
            ∷ opt (is_authority config.role) (authors (slots S millisecs_per_block)))
          (new_full S config)
  new_full-RuntimeSlots parent_hash config =
      new_full-Inherents S millisecs_per_block parent_hash
        (λ c. a.at_start c _ (runtime_duration (a.best c)))
        (λ c. a.at_block c parent_hash _ (runtime_duration (a.state_at c parent_hash))) config
