-- ===== src/Runtime/Weights/Checks.antt =====
-- Tests in Rust: a failed `assert!`, and a product above `u64`, is a panic.
use sub0_bangkok_challenges.Common.{
  ℕ, ◌*◌, ◌^◌, ◌≤◌, ◌<◌, ◌≡◌, refl, String, Bool, true, false, [], done, Act, ◌>>=◌, ◌>>◌, pure,
  panic, ltb, leb, if◌then◌else◌, arith, run,
}

-- It has no effects, and passes or panics.
abbrev pub Checked : Type 0 → Type 0
Checked A = Act ⊥ ⊥ A

-- `a * b` in `u64`.
unfoldable pub mul : ℕ → ℕ → Checked ℕ
mul a b = if ltb (a * b) (2 ^ 64) then pure (a * b) else panic "attempt to multiply with overflow"

unfoldable pub assert : Bool → String → Checked (Unit {0})
assert true message = pure tt
assert false message = panic message

-- The test passes.
abbrev pub Passes : Checked (Unit {0}) → Type 0
Passes m = m ≡ (done tt, [])

leb-true : (a b : ℕ) → a ≤ b → leb a b ≡ true
leb-true a b le = ground arith

ltb-true : (a b : ℕ) → a < b → ltb a b ≡ true
ltb-true a b lt = ground arith

ltb-false : (a b : ℕ) → b ≤ a → ltb a b ≡ false
ltb-false a b le = ground arith

pub assert-Passes_last : (a b : ℕ) (message : String) → a ≤ b → Passes (assert (leb a b) message)
unfolding assert run
assert-Passes_last a b message le = rw (leb-true a b le) refl

pub assert-Passes :
    (a b : ℕ) (message : String) (rest : Checked (Unit {0}))
    → a ≤ b
    → Passes rest
    → Passes (assert (leb a b) message >> rest)
unfolding assert run
assert-Passes a b message rest le e = rw (leb-true a b le) e

pub mul-Passes :
    (a b : ℕ) (rest : ℕ → Checked (Unit {0}))
    → a * b < 2 ^ 64
    → Passes (rest (a * b))
    → Passes (mul a b >>= rest)
unfolding mul run
mul-Passes a b rest lt e = rw (ltb-true (a * b) (2 ^ 64) lt) e

-- What has passed.
if-Passes_parts :
    {A : Type 0} (b : Bool) (x : A) (message : String) (rest : A → Checked (Unit {0}))
    → Passes ((if b then pure x else panic message) >>= rest)
    → (b ≡ true) × Passes (rest x)
unfolding run
if-Passes_parts true x message rest e = (refl, e)
if-Passes_parts false x message rest e = cc

pub mul-Passes_parts :
    (a b : ℕ) (rest : ℕ → Checked (Unit {0}))
    → Passes (mul a b >>= rest)
    → (a * b < 2 ^ 64) × Passes (rest (a * b))
unfolding mul
mul-Passes_parts a b rest e =
    let (t, passes) = if-Passes_parts (ltb (a * b) (2 ^ 64)) _ _ _ e in (ground arith, passes)

pub assert-Passes_rest :
    (b : Bool) (message : String) (rest : Checked (Unit {0}))
    → Passes (assert b message >> rest)
    → Passes rest
unfolding assert run
assert-Passes_rest true message rest e = e
assert-Passes_rest false message rest e = cc
