-- ===== src/Common/Completes.antt =====
-- Code that succeeds.
use Prim.Native.String.{String}
use mathlib.Core.Path.{◌≡◌, refl, ap}
use mathlib.Core.Logic.{◌≢◌}
use mathlib.Core.Bool.{Bool, true, false}
use mathlib.Core.Option.{Option, none, some}
use mathlib.Core.List.{List}
use sub0_bangkok_challenges.Common.Actions.{
  Outcome, Result, ok, done, failed, panicked, Act, ◌>>=◌, emit, lift, settle, expect, pure, when,
  map_err, embed,
}
use sub0_bangkok_challenges.Common.Emits.{Emits, project}

failed_not_done : {X A : Type 0} {x : X} {a : A} → ◌≢◌ {A = Outcome X A} (failed x) (done a)
failed_not_done e = cc

panicked_not_done :
    {X A : Type 0} {s : String} {a : A} → ◌≢◌ {A = Outcome X A} (panicked s) (done a)
panicked_not_done e = cc

pub record Completes {X E A : Type 0} (m : Act X E A) : Type 0 where
  pub value : A
  pub is_done : m.0 ≡ done value

abbrev pub IsOk : {X A : Type 0} → Result X A → Type 0
IsOk {X} {A} r = (a : A) × (r ≡ ok a)

pub IsOk-map_err : {X Y A : Type 0} (f : X → Y) (r : Result X A) → IsOk r → IsOk (map_err f r)
IsOk-map_err f r (a, e) = (a, ap (map_err f) e)

-- Code that succeeds has logged all that it was to log.
pub project-Completes :
    {X E F A : Type 0} {p : E → Option F} {fs : List F} (m : Act X E A)
    → Emits p fs m
    → Completes m
    → project p m.1 ≡ fs
project-Completes (done a, l) h c = h.by_outcome
project-Completes (failed x, l) h c = absurd (failed_not_done c.is_done)
project-Completes (panicked s, l) h c = absurd (panicked_not_done c.is_done)

abbrev pub IsDone : {X A : Type 0} → Outcome X A → Type 0
IsDone {X} {A} o = (a : A) × (o ≡ done a)

module _ {X E A : Type 0} where
  pub Completes-settle : (o : Outcome X A) → IsDone o → Completes {E = E} (settle o)
  unfolding settle
  Completes-settle o (a, e) = record { value = a; is_done = e }

  pub Completes-pure : (a : A) → Completes {X = X} {E = E} (pure a)
  unfolding pure
  Completes-pure a = record { value = a; is_done = refl }

  pub Completes-lift : (r : Result X A) → IsOk r → Completes {X = X} {E = E} (lift r)
  unfolding lift
  Completes-lift r (a, e) = record { value = a; is_done = rw (e) refl }

  pub Completes-expect :
      (o : Option A) (s : String) → o ≢ none → Completes {X = X} {E = E} (expect o s)
  unfolding expect
  Completes-expect none s h = absurd (h refl)
  Completes-expect (some a) s h = record { value = a; is_done = refl }

module _ {X E : Type 0} where
  pub Completes-emit : (e : E) → Completes {X = X} (emit e)
  unfolding emit
  Completes-emit e = record { value = tt; is_done = refl }

  pub Completes-when :
      (b : Bool) (m : Act X E (Unit {0})) → (b ≡ true → Completes m) → Completes (when b m)
  unfolding when
  Completes-when true m h = h refl
  Completes-when false m h = record { value = tt; is_done = refl }

module _ {X E A B : Type 0} where
  pub Completes-bind_done :
      (m : Act X E A) {f : A → Act X E B}
      → Completes m
      → ((a : A) → m.0 ≡ done a → Completes (f a))
      → Completes (m >>= f)
  unfolding ◌>>=◌
  Completes-bind_done (done a, l) h k =
      let next = k a refl in record { value = next.value; is_done = next.is_done }
  Completes-bind_done (failed x, l) h k = absurd (failed_not_done h.is_done)
  Completes-bind_done (panicked s, l) h k = absurd (panicked_not_done h.is_done)

  pub Completes-bind :
      {m : Act X E A} {f : A → Act X E B}
      → Completes m
      → ((a : A) → Completes (f a))
      → Completes (m >>= f)
  Completes-bind {m} h k = Completes-bind_done m h (λ a _. k a)

module _ {X Y E F A : Type 0} (f : X → Y) (g : E → F) where
  pub Completes-embed : (m : Act X E A) → Completes m → Completes (embed f g m)
  unfolding embed
  Completes-embed (done a, l) h = record { value = a; is_done = refl }
  Completes-embed (failed x, l) h = absurd (failed_not_done h.is_done)
  Completes-embed (panicked s, l) h = absurd (panicked_not_done h.is_done)

pub ruleset success =
    (Completes-bind, Completes-pure, Completes-emit, Completes-lift, Completes-settle)
