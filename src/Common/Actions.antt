-- ===== src/Common/Actions.antt =====
-- What a call returns, and code that logs its effects and may fail. `?` is `>>=`, an `expect` on
-- `None` and the macros `unimplemented!` and `unreachable!` are `panicked`.
use Prim.Native.String.{String}
use mathlib.Core.Bool.{Bool, true, false}
use mathlib.Core.Option.{Option, none, some}
use mathlib.Core.List.{List, [], ◌∷◌, ◌++◌, map}

-- `std::result::Result`
pub data Result (X A : Type 0) : Type 0 where
  ok : A → Result X A
  err : X → Result X A

-- How a call ends: with a value, with an error that `?` passed on, or in a panic.
pub data Outcome (X A : Type 0) : Type 0 where
  done : A → Outcome X A
  failed : X → Outcome X A
  panicked : String → Outcome X A

-- The result, and the effects in the order in which they happened. The operations are shut: proofs
-- go by the rules of `Common.Emits` and by the laws below, tests unfold `run`.
abbrev pub Act : Type 0 → Type 0 → Type 0 → Type 0
Act X E A = Outcome X A × List E

module _ {X E : Type 0} where
  infixl 5 ◌>>=◌ ◌>>◌
  unfoldable pub ◌>>=◌ : {A B : Type 0} → Act X E A → (A → Act X E B) → Act X E B
  (done a, l) >>= f = let (r, l') = f a in (r, l ++ l')
  (failed x, l) >>= f = (failed x, l)
  (panicked s, l) >>= f = (panicked s, l)

  abbrev pub ◌>>◌ : {A B : Type 0} → Act X E A → Act X E B → Act X E B
  m >> k = m >>= λ _. k

  unfoldable pub pure : {A : Type 0} → A → Act X E A
  pure a = (done a, [])

  unfoldable pub fail : {A : Type 0} → X → Act X E A
  fail x = (failed x, [])

  unfoldable pub panic : {A : Type 0} → String → Act X E A
  panic s = (panicked s, [])

  -- One effect.
  unfoldable pub emit : E → Act X E (Unit {0})
  emit e = (done tt, e ∷ [])

  -- A call of other code that has no effect of its own in the log.
  unfoldable pub lift : {A : Type 0} → Result X A → Act X E A
  lift (ok a) = (done a, [])
  lift (err x) = (failed x, [])

  -- The same for a call that may panic.
  unfoldable pub settle : {A : Type 0} → Outcome X A → Act X E A
  settle o = (o, [])

  -- `Option::expect`
  unfoldable pub expect : {A : Type 0} → Option A → String → Act X E A
  expect none s = (panicked s, [])
  expect (some a) s = (done a, [])

  -- `if b { m }`
  unfoldable pub when : Bool → Act X E (Unit {0}) → Act X E (Unit {0})
  when true m = m
  when false m = (done tt, [])

abbrev pub is_done : {X A : Type 0} → Outcome X A → Bool
is_done (done _) = true
is_done (failed _) = false
is_done (panicked _) = false

-- `Result::map_err` and `Result::map`
abbrev pub map_err : {X Y A : Type 0} → (X → Y) → Result X A → Result Y A
map_err f (ok a) = ok a
map_err f (err x) = err (f x)

abbrev pub result_map : {X A B : Type 0} → (A → B) → Result X A → Result X B
result_map f (ok a) = ok (f a)
result_map f (err x) = err x

-- `?` in code that has no effects.
abbrev pub and_then : {X A B : Type 0} → Result X A → (A → Result X B) → Result X B
and_then (ok a) f = f a
and_then (err x) f = err x

-- Code of another part, its errors converted by `From` and its effects among those of the caller.
unfoldable pub embed : {X Y E F A : Type 0} → (X → Y) → (E → F) → Act X E A → Act Y F A
embed f g (done a, l) = (done a, map g l)
embed f g (failed x, l) = (failed (f x), map g l)
embed f g (panicked s, l) = (panicked s, map g l)

-- Names the operations, for tests that evaluate code.
unfoldable pub run : {X E A : Type 0} → Act X E A → Act X E A
unfolding ◌>>=◌ pure fail panic emit lift settle expect when embed
run m = m
