-- ===== src/Common/Emits.antt =====
-- What a piece of code logs, seen through a projection of the events: all of it when the code
-- succeeds, and a beginning of it when the code stops early.
use mathlib.Core.List.{append-nil, append_assoc}
use mathlib.Core.Path.{◌≡◌, refl, sym, ap, subst, ◌∙◌}
use Prim.Native.String.{String}
use mathlib.Core.Bool.{Bool, true, false}
use mathlib.Core.Option.{Option, none, some}
use mathlib.Core.List.{List, [], ◌∷◌, ◌++◌, map}
use native.Mathlib.Omega.{arith}
use sub0_bangkok_challenges.Common.Tests.{if◌then◌else◌}
use sub0_bangkok_challenges.Common.Actions.{
  Outcome, Result, ok, err, done, failed, panicked, Act, ◌>>=◌, emit, lift, settle, expect, pure,
  fail, panic, when, embed,
}

-- The images of the events that the projection keeps, in order.
abbrev pub project : {E F : Type 0} → (E → Option F) → List E → List F
project p [] = []
project p (e ∷ l) = elim (p e) [ none ↦ project p l | some f ↦ f ∷ project p l ]

abbrev pub IsPrefix : {F : Type 0} → List F → List F → Type 0
IsPrefix {F} xs ys = (rest : List F) × (xs ++ rest ≡ ys)

abbrev pub EmitsBy : {X E F A : Type 0} → (E → Option F) → List F → Act X E A → Type 0
EmitsBy p fs (done a, l) = project p l ≡ fs
EmitsBy p fs (failed x, l) = IsPrefix (project p l) fs
EmitsBy p fs (panicked s, l) = IsPrefix (project p l) fs

-- `m` logs exactly `fs` if it succeeds, and a beginning of `fs` if it does not.
pub record Emits {X E F A : Type 0} (p : E → Option F) (fs : List F) (m : Act X E A) : Type 0 where
  pub by_outcome : EmitsBy p fs m

pub project-append :
    {E F : Type 0} (p : E → Option F) (l l' : List E)
    → project p (l ++ l') ≡ project p l ++ project p l'
project-append p [] l' = refl
project-append p (e ∷ l) l' = ground (arith, project-append p l l')

append-prefix :
    {F : Type 0} (xs ys : List F) {zs : List F} → IsPrefix ys zs → IsPrefix (xs ++ ys) (xs ++ zs)
append-prefix xs ys (rest, e) = (rest, append_assoc xs ys rest ∙ ap (λ l. xs ++ l) e)

prefix-weaken : {F : Type 0} (xs ys zs : List F) → IsPrefix xs ys → IsPrefix xs (ys ++ zs)
prefix-weaken xs ys zs (rest, e) = (rest ++ zs, sym (append_assoc xs rest zs) ∙ ap (λ l. l ++ zs) e)

pub prefix-nil : {F : Type 0} (xs : List F) → IsPrefix xs [] → xs ≡ []
prefix-nil [] h = refl
prefix-nil (x ∷ xs) (rest, e) = cc

module _ {X E F A : Type 0} (p : E → Option F) (gs : List F) where
  -- More events in front.
  EmitsBy-cons :
      (l : List E) {fs : List F} (m : Act X E A)
      → project p l ≡ fs
      → EmitsBy p gs m
      → EmitsBy p (fs ++ gs) (m.0, l ++ m.1)
  EmitsBy-cons l (done a, l') e h = rw (project-append p l l', e, h)
  EmitsBy-cons l (failed x, l') e h =
      rw (← e, project-append p l l') (append-prefix (project p l) _ h)
  EmitsBy-cons l (panicked s, l') e h =
      rw (← e, project-append p l l') (append-prefix (project p l) _ h)

module _ {X E F A B : Type 0} {p : E → Option F} where
  -- Code in sequence logs what its parts log. The second part may use what the first returned.
  pub Emits-bind_ok :
      (fs gs : List F) (m : Act X E A) {f : A → Act X E B}
      → Emits p fs m
      → ((a : A) → m.0 ≡ done a → Emits p gs (f a))
      → Emits p (fs ++ gs) (m >>= f)
  unfolding ◌>>=◌
  Emits-bind_ok fs gs (done a, l) {f} h k = record {
    by_outcome = EmitsBy-cons p gs l (f a) h.by_outcome (k a refl).by_outcome;
  }
  Emits-bind_ok fs gs (failed x, l) h k = record {
    by_outcome = prefix-weaken (project p l) fs gs h.by_outcome;
  }
  Emits-bind_ok fs gs (panicked s, l) h k = record {
    by_outcome = prefix-weaken (project p l) fs gs h.by_outcome;
  }

  pub Emits-bind :
      {fs gs : List F} {m : Act X E A} {f : A → Act X E B}
      → Emits p fs m
      → ((a : A) → Emits p gs (f a))
      → Emits p (fs ++ gs) (m >>= f)
  Emits-bind {fs} {gs} {m} h k = Emits-bind_ok fs gs m h (λ a _. k a)

  -- The second part logs nothing that is kept.
  pub Emits-then :
      {fs : List F} {m : Act X E A} {f : A → Act X E B}
      → Emits p fs m
      → ((a : A) → Emits p [] (f a))
      → Emits p fs (m >>= f)
  Emits-then {fs} {m} {f} h k = subst (λ gs. Emits p gs (m >>= f)) (append-nil fs) (Emits-bind h k)

  -- The first part logs nothing that is kept.
  pub Emits-after :
      {gs : List F} {m : Act X E A} {f : A → Act X E B}
      → Emits p [] m
      → ((a : A) → Emits p gs (f a))
      → Emits p gs (m >>= f)
  Emits-after {gs} {m} h k = Emits-bind_ok [] gs m h (λ a _. k a)

module _ {X E F A : Type 0} {p : E → Option F} where
  pub Emits-pure : (a : A) → Emits {X = X} p [] (pure a)
  unfolding pure
  Emits-pure a = record { by_outcome = refl }

  -- Nothing is a beginning of whatever was to be logged.
  pub Emits-fail : {fs : List F} (x : X) → Emits {A = A} p fs (fail x)
  unfolding fail
  Emits-fail {fs} x = record { by_outcome = (fs, refl) }

  pub Emits-panic : {fs : List F} (s : String) → Emits {X = X} {A = A} p fs (panic s)
  unfolding panic
  Emits-panic {fs} s = record { by_outcome = (fs, refl) }

  pub Emits-lift : (r : Result X A) → Emits p [] (lift r)
  unfolding lift
  Emits-lift (ok a) = record { by_outcome = refl }
  Emits-lift (err x) = record { by_outcome = ([], refl) }

  pub Emits-settle : (o : Outcome X A) → Emits p [] (settle o)
  unfolding settle
  Emits-settle (done a) = record { by_outcome = refl }
  Emits-settle (failed x) = record { by_outcome = ([], refl) }
  Emits-settle (panicked s) = record { by_outcome = ([], refl) }

  pub Emits-expect : (o : Option A) (s : String) → Emits {X = X} p [] (expect o s)
  unfolding expect
  Emits-expect (some a) s = record { by_outcome = refl }
  Emits-expect none s = record { by_outcome = ([], refl) }

project-map :
    {E F G : Type 0} (g : E → F) (p : F → Option G) (l : List E)
    → project p (map g l) ≡ project (λ e. p (g e)) l
project-map g p [] = refl
project-map g p (e ∷ l) = ground (arith, project-map g p l)

module _ {X Y E F G A : Type 0} (f : X → Y) (g : E → F) {p : F → Option G} where
  -- What is kept of embedded code is what its own projection keeps.
  pub Emits-embed :
      {fs : List G} (m : Act X E A) → Emits (λ e. p (g e)) fs m → Emits p fs (embed f g m)
  unfolding embed
  Emits-embed (done a, l) h = record { by_outcome = rw (project-map g p l) (h.by_outcome) }
  Emits-embed (failed x, l) h = record { by_outcome = rw (project-map g p l) (h.by_outcome) }
  Emits-embed (panicked s, l) h = record { by_outcome = rw (project-map g p l) (h.by_outcome) }

module _ {X E F : Type 0} {p : E → Option F} where
  -- An event that the projection drops, and one that it keeps.
  pub Emits-drop : (e : E) → p e ≡ none → Emits {X = X} p [] (emit e)
  unfolding emit
  Emits-drop e d = record { by_outcome = rw (d, project) }

  pub Emits-keep : (e : E) {x : F} → p e ≡ some x → Emits {X = X} p (x ∷ []) (emit e)
  unfolding emit
  Emits-keep e d = record { by_outcome = rw (d, project) }

  pub Emits-when :
      (b : Bool) {fs : List F} (m : Act X E (Unit {0}))
      → (b ≡ true → Emits p fs m)
      → Emits p (if b then fs else []) (when b m)
  unfolding when
  Emits-when true m h = h refl
  Emits-when false m h = record { by_outcome = refl }

  pub Emits-when_silent : (b : Bool) (m : Act X E (Unit {0})) → Emits p [] m → Emits p [] (when b m)
  unfolding when
  Emits-when_silent true m h = h
  Emits-when_silent false m h = record { by_outcome = refl }

-- A projection that keeps nothing.
module _ {E F : Type 0} (p : E → Option F) (drops : (e : E) → p e ≡ none) where
  project-none : (l : List E) → project p l ≡ []
  project-none [] = refl
  project-none (e ∷ l) = rw (project, drops e) (project-none l)

  pub Emits-none : {X A : Type 0} (m : Act X E A) → Emits p [] m
  Emits-none (done a, l) = record { by_outcome = project-none l }
  Emits-none (failed x, l) = record { by_outcome = ([], append-nil (project p l) ∙ project-none l) }
  Emits-none (panicked s, l) = record {
    by_outcome = ([], append-nil (project p l) ∙ project-none l);
  }

pub Emits-if :
    {X E F A : Type 0} {p : E → Option F} {fs : List F} (b : Bool) (m n : Act X E A)
    → Emits p fs m
    → Emits p fs n
    → Emits p fs (if b then m else n)
Emits-if true m n h k = h
Emits-if false m n h k = k

-- The rules for code that logs nothing that is kept; `refl` is for the events.
pub ruleset silent = (
  refl, Emits-after, Emits-pure, Emits-fail, Emits-panic, Emits-lift, Emits-settle, Emits-expect,
  Emits-drop, Emits-when_silent,
)
