-- ===== src/Common/Panics.antt =====
-- Code that never panics.
use Prim.Native.String.{String}
use mathlib.Core.Path.{◌≡◌, refl}
use mathlib.Core.Logic.{◌≢◌, ◌↔◌}
use mathlib.Core.Bool.{Bool, true, false}
use mathlib.Core.Option.{Option, none, some}
use sub0_bangkok_challenges.Common.Actions.{
  Outcome, Result, ok, err, done, failed, panicked, Act, ◌>>=◌, emit, lift, settle, expect, pure,
  when, embed, fail, panic,
}

pub record NeverPanics {X E A : Type 0} (m : Act X E A) : Type 0 where
  pub calm : (s : String) → m.0 ≢ panicked s

module _ {X E A : Type 0} where
  pub NeverPanics-pure : (a : A) → NeverPanics {X = X} {E = E} (pure a)
  unfolding pure
  NeverPanics-pure a = record { calm = λ s e. cc }

  pub NeverPanics-fail : (x : X) → NeverPanics {E = E} {A = A} (fail x)
  unfolding fail
  NeverPanics-fail x = record { calm = λ s e. cc }

  pub NeverPanics-lift : (r : Result X A) → NeverPanics {X = X} {E = E} (lift r)
  unfolding lift
  NeverPanics-lift (ok a) = record { calm = λ s e. cc }
  NeverPanics-lift (err x) = record { calm = λ s e. cc }

  pub NeverPanics-settle :
      (o : Outcome X A) → ((s : String) → o ≢ panicked s) → NeverPanics {E = E} (settle o)
  unfolding settle
  NeverPanics-settle o h = record { calm = h }

  pub NeverPanics-expect :
      (o : Option A) (s : String) → o ≢ none → NeverPanics {X = X} {E = E} (expect o s)
  unfolding expect
  NeverPanics-expect none s h = absurd (h refl)
  NeverPanics-expect (some a) s h = record { calm = λ s e. cc }

module _ {X E : Type 0} where
  pub NeverPanics-emit : (e : E) → NeverPanics {X = X} (emit e)
  unfolding emit
  NeverPanics-emit e = record { calm = λ s e. cc }

  pub NeverPanics-when :
      (b : Bool) (m : Act X E (Unit {0})) → (b ≡ true → NeverPanics m) → NeverPanics (when b m)
  unfolding when
  NeverPanics-when true m h = h refl
  NeverPanics-when false m h = record { calm = λ s e. cc }

module _ {X E A B : Type 0} where
  pub NeverPanics-bind_done :
      (m : Act X E A) {f : A → Act X E B}
      → NeverPanics m
      → ((a : A) → m.0 ≡ done a → NeverPanics (f a))
      → NeverPanics (m >>= f)
  unfolding ◌>>=◌
  NeverPanics-bind_done (done a, l) h k = record { calm = λ s e. (k a refl).calm s e }
  NeverPanics-bind_done (failed x, l) h k = record { calm = λ s e. cc }
  NeverPanics-bind_done (panicked s, l) h k = absurd (h.calm s refl)

  pub NeverPanics-bind :
      {m : Act X E A} {f : A → Act X E B}
      → NeverPanics m
      → ((a : A) → NeverPanics (f a))
      → NeverPanics (m >>= f)
  NeverPanics-bind {m} h k = NeverPanics-bind_done m h (λ a _. k a)

module _ {X Y E F A : Type 0} (f : X → Y) (g : E → F) where
  pub NeverPanics-embed : (m : Act X E A) → NeverPanics m → NeverPanics (embed f g m)
  unfolding embed
  NeverPanics-embed (done a, l) h = record { calm = λ s e. cc }
  NeverPanics-embed (failed x, l) h = record { calm = λ s e. cc }
  NeverPanics-embed (panicked s, l) h = absurd (h.calm s refl)

pub ruleset calm_rules =
    (NeverPanics-bind, NeverPanics-pure, NeverPanics-lift, NeverPanics-emit, NeverPanics-fail)

abbrev pub Panics : {X E A : Type 0} → Act X E A → Type 0
Panics m = (s : String) × (m.0 ≡ panicked s)

pub panics : {X A : Type 0} (E : Type 0) (s : String) → Panics {X = X} {E = E} {A = A} (panic s)
unfolding panic
panics E s = (s, refl)

module _ {X E A : Type 0} where
  pub Panics-iff :
      {m : Act X E A} (b : Bool)
      → (b ≡ true → Panics m)
      → (b ≡ false → NeverPanics m)
      → Panics m ↔ (b ≡ true)
  Panics-iff true p n = (λ _. refl, λ _. p refl)
  Panics-iff false p n = (λ (s, e). absurd ((n refl).calm s e), λ e. cc)

  pub Panics-only_if : {m : Act X E A} → NeverPanics m → Panics m ↔ (false ≡ true)
  Panics-only_if n = Panics-iff false (λ e. cc) (λ _. n)
