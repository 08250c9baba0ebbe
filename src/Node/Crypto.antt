-- ===== src/Node/Crypto.antt =====
-- Keys: `sp_core::Pair::from_string`, `.public()`, and how serde writes a key. A key pair stands
-- for its public key, the only thing that the chain specifications ask of it.
use sub0_bangkok_challenges.Common.{
  ℕ, suc, ◌*◌, ◌^◌, ◌%◌, String, Option, List, [], ◌∷◌, ◌≡◌, refl, ap, length, All, Act, done,
  ◌>>=◌, pure, run,
}
use sub0_bangkok_challenges.Node.Json.{Json}

pub record Crypto : Type 1 where
  pub AccountId : Type 0
  pub Sr25519 : Type 0
  pub AuraId : Type 0
  pub GrandpaId : Type 0
  pub sr25519_from_string : String → Option Sr25519
  pub aura_from_string : String → Option AuraId
  pub grandpa_from_string : String → Option GrandpaId
  -- `AccountPublic::from(..).into_account()`
  pub into_account : Sr25519 → AccountId
  pub account_json : AccountId → Json
  pub aura_json : AuraId → Json
  pub grandpa_json : GrandpaId → Json

-- Building a chain specification has no effect but to fail with a text or to panic.
abbrev pub Build : Type 0 → Type 0
Build A = Act String ⊥ A

-- `x << k` on `u64`, for k < 64.
abbrev pub shl64 : ℕ → ℕ → ℕ
shl64 x k = (x * 2 ^ k) % 2 ^ 64

-- `vec![f(a), f(b), ..]`, from left to right.
unfoldable pub vec : {A : Type 0} → (String → Build A) → List String → Build (List A)
vec f [] = pure []
vec f (seed ∷ seeds) = do x ← f seed; xs ← vec f seeds; pure (x ∷ xs)

module _ {A : Type 0} (f : String → Build A) where
  abbrev pub Succeeds : String → Type 0
  Succeeds s = (a : A) × (f s ≡ (done a, []))

  pub vec_total :
      (seeds : List String)
      → All Succeeds seeds
      → (xs : List A) × (vec f seeds ≡ (done xs, [])) × (length xs ≡ length seeds)
  unfolding vec run
  vec_total [] h = ([], refl, refl)
  vec_total (seed ∷ seeds) ((a, e), h) =
      let (xs, es, n) = vec_total seeds h in (a ∷ xs, rw (e, es), ap suc n)
