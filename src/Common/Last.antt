-- ===== src/Common/Last.antt =====
-- Code that ends with one event of a kind, and code that logs no more of a kind.
use mathlib.Core.List.{append-nil}
use mathlib.Core.Path.{◌≡◌, refl}
use mathlib.Core.Option.{Option}
use mathlib.Core.List.{List, [], ◌∷◌, ◌++◌}
use sub0_bangkok_challenges.Common.Actions.{done, failed, panicked, Act, ◌>>=◌, emit, pure}
use sub0_bangkok_challenges.Common.Emits.{Emits, project, project-append, prefix-nil}

-- `m` ends with the event `e`, and logs nothing else that the projection keeps; if it fails, it
-- logs nothing that is kept.
abbrev pub OnlyLast : {X E F A : Type 0} → (E → Option F) → E → Act X E A → Type 0
OnlyLast {E} p e (done _, l) =
    (before : List E) × (l ≡ before ++ (e ∷ [])) × (project p before ≡ [])
OnlyLast p e (failed _, l) = project p l ≡ []
OnlyLast p e (panicked _, l) = project p l ≡ []

module _ {X E F A : Type 0} (p : E → Option F) (e : E) where
  pub emit-OnlyLast : (m : Act X E A) → Emits p [] m → OnlyLast p e (m >>= λ _. emit e)
  unfolding ◌>>=◌ emit
  emit-OnlyLast (done a, l) h = (l, refl, h.by_outcome)
  emit-OnlyLast (failed x, l) h = prefix-nil _ h.by_outcome
  emit-OnlyLast (panicked s, l) h = prefix-nil _ h.by_outcome

  pub emit-pure-OnlyLast :
      {B : Type 0} (m : Act X E A) (result : A → B)
      → Emits p [] m
      → OnlyLast p e (m >>= λ a. emit e >>= λ _. pure (result a))
  unfolding ◌>>=◌ emit pure
  emit-pure-OnlyLast (done a, l) result h = (l, refl, h.by_outcome)
  emit-pure-OnlyLast (failed x, l) result h = prefix-nil _ h.by_outcome
  emit-pure-OnlyLast (panicked s, l) result h = prefix-nil _ h.by_outcome

Emits-nothing :
    {X E F A : Type 0} (p : E → Option F) (m : Act X E A) → Emits p [] m → project p m.1 ≡ []
Emits-nothing p (done a, l) h = h.by_outcome
Emits-nothing p (failed x, l) h = prefix-nil _ h.by_outcome
Emits-nothing p (panicked s, l) h = prefix-nil _ h.by_outcome

-- Whatever comes after what is kept, and however it ends, it is kept.
pub project-after :
    {X E F A B : Type 0} (p : E → Option F) (fs : List F) (m : Act X E A) (f : A → Act X E B)
    → project p m.1 ≡ fs
    → ((a : A) → Emits p [] (f a))
    → project p (m >>= f).1 ≡ fs
unfolding ◌>>=◌
project-after p fs (done a, l) f h k =
    rw (project-append p l (f a).1, h, Emits-nothing p (f a) (k a), append-nil fs)
project-after p fs (failed x, l) f h k = h
project-after p fs (panicked s, l) f h k = h
