-- ===== src/Common/Returns.antt =====
-- What holds of every value that a piece of code returns.
use mathlib.Core.Path.{ap, ◌≡◌, refl, subst}
use sub0_bangkok_challenges.Common.Actions.{Outcome, done, failed, panicked, Act, ◌>>=◌, pure}

pub done_injective : {X A : Type 0} (a b : A) → ◌≡◌ {A = Outcome X A} (done a) (done b) → a ≡ b
done_injective a b e = cc

module _ {X E A : Type 0} where
  pub record Returns (P : A → Type 0) (m : Act X E A) : Type 0 where
    pub holds : (a : A) → m.0 ≡ done a → P a

  pub Returns-pure : (P : A → Type 0) (a : A) → P a → Returns P (pure a)
  unfolding pure
  Returns-pure P a h = record { holds = λ b e. subst P (done_injective a b e) h }

module _ {X E A B : Type 0} where
  pub Returns-bind_ok :
      (P : B → Type 0) (m : Act X E A) {f : A → Act X E B}
      → ((a : A) → m.0 ≡ done a → Returns P (f a))
      → Returns P (m >>= f)
  unfolding ◌>>=◌
  Returns-bind_ok P (done a, l) k = record { holds = λ b e. (k a refl).holds b e }
  Returns-bind_ok P (failed x, l) k = record { holds = λ b e. cc }
  Returns-bind_ok P (panicked s, l) k = record { holds = λ b e. cc }

  pub Returns-bind :
      (P : B → Type 0) (m : Act X E A) {f : A → Act X E B}
      → ((a : A) → Returns P (f a))
      → Returns P (m >>= f)
  Returns-bind P m k = Returns-bind_ok P m (λ a _. k a)

-- How code in sequence ends, of how its parts end.
module _ {X E A B : Type 0} where
  pub bind-done : (m : Act X E A) (f : A → Act X E B) (a : A) → m.0 ≡ done a → (m >>= f).0 ≡ (f a).0
  unfolding ◌>>=◌
  bind-done (done b, l) f a e = ap (λ c. (f c).0) (done_injective b a e)
  bind-done (failed x, l) f a e = cc
  bind-done (panicked s, l) f a e = cc

  pub bind-failed :
      (m : Act X E A) (f : A → Act X E B) (x : X) → m.0 ≡ failed x → (m >>= f).0 ≡ failed x
  unfolding ◌>>=◌
  bind-failed (done a, l) f x e = cc
  bind-failed (failed y, l) f x e = cc
  bind-failed (panicked s, l) f x e = cc
