-- ===== src/Para/ChainSpec/Genesis.antt =====
-- The genesis patch of the parachain, read back, against the constants of the template's runtime.
use mathlib.Core.Option
use sub0_bangkok_challenges.Common.{
  ℕ, ◌+◌, ◌*◌, ◌^◌, ◌≤◌, ◌<◌, String, Option, none, some, List, [], ◌∷◌, map, ◌≡◌, refl, arith,
  length, length-map,
}
use sub0_bangkok_challenges.Node.Json.{Json, num, arr, Items, nil, cons, items, get, keys}
use sub0_bangkok_challenges.Runtime.Pallets.{unknown}
use sub0_bangkok_challenges.Node.Crypto.{Crypto}
use sub0_bangkok_challenges.Node.Genesis.{
  IsFunded, read_balances, read_list-array, total_issuance-map, All-map,
}
use sub0_bangkok_challenges.Para.ChainSpec.{
  Crates, testnet_genesis, session_entry, invulnerable_entry,
}

-- The account, the validator, and the Aura key of the session keys, of one entry of `session.keys`.
session_keys_of : Json → Option (Json × Json × Json)
session_keys_of (arr (cons account (cons validator (cons keys nil)))) =
    Option.map (λ aura. (account, validator, aura)) (get "aura" keys)
session_keys_of _ = none

sessions : Items → Option (List (Json × Json × Json))
unfolding session_keys_of
sessions nil = some []
sessions (cons x xs) = elim (session_keys_of x) [
  | none ↦ none
  | some e ↦ Option.map (λ es. e ∷ es) (sessions xs)
]

read_sessions : Json → Option (List (Json × Json × Json))
unfolding sessions
read_sessions (arr xs) = sessions xs
read_sessions _ = none

read_texts : Items → List Json
read_texts nil = []
read_texts (cons x xs) = x ∷ read_texts xs

read_array : Json → Option (List Json)
unfolding read_texts
read_array (arr xs) = some (read_texts xs)
read_array _ = none

-- `key.inner` of a patch.
abbrev pub at : String → String → Json → Option Json
at key inner patch = Option.bind (get key patch) (get inner)

pub session_keys : Json → Option (List (Json × Json × Json))
unfolding read_sessions Option.bind
session_keys patch = Option.bind (at "session" "keys" patch) read_sessions

pub invulnerables : Json → Option (List Json)
unfolding read_array Option.bind
invulnerables patch = Option.bind (at "collatorSelection" "invulnerables" patch) read_array

-- The deposit of an account is at most 10^12 of the smallest parts of the balance, the one token of
-- the properties of the chain.
abbrev pub HasSmallDeposit : Crates → Type 0
HasSmallDeposit R = R.existential_deposit ≤ 10 ^ 12

-- The collators of a patch, accounts with their Aura keys, are the invulnerables. Each has its Aura
-- key as its session keys and is its own validator, and can pay the bond out of `funds`.
pub record IsCollating (R : Crates) (collators : List (Json × Json)) (funds para_id : ℕ)
    (patch : Json) : Type 0 where
  pub invulnerables_eq : invulnerables patch ≡ some (map (λ c. c.0) collators)
  pub session_eq : session_keys patch ≡ some (map (λ c. (c.0, c.0, c.1)) collators)
  pub bond : ℕ
  pub bond_eq : at "collatorSelection" "candidacyBond" patch ≡ some (num bond)
  pub bond_affordable : bond ≤ funds
  pub bond_above_deposit : R.existential_deposit ≤ bond
  pub para_id_eq : at "parachainInfo" "parachainId" patch ≡ some (num para_id)

module _ (C : Crypto) (R : Crates) where
  open C use {AccountId, AuraId}

  -- The account and the Aura key of a collator, as serde writes them.
  abbrev pub collator_json : AccountId × AuraId → Json × Json
  collator_json (account, aura) = (C.account_json account, C.aura_json aura)

  read_texts-map :
      (cs : List (AccountId × AuraId))
      → read_texts (items (map (invulnerable_entry C R) cs)) ≡ map (λ c. c.0) (map collator_json cs)
  unfolding read_texts
  read_texts-map [] = refl
  read_texts-map (c ∷ cs) = rw (read_texts-map cs)

  sessions-map :
      (cs : List (AccountId × AuraId))
      → sessions (items (map (session_entry C R) cs))
        ≡ some (map (λ c. (c.0, c.0, c.1)) (map collator_json cs))
  unfolding sessions session_keys_of
  sessions-map [] = refl
  sessions-map (c ∷ cs) = rw (sessions-map cs)

  -- The patch's collators are the given ones, each with its Aura key and as its own validator, the
  -- bond is between the existential deposit and the funds of an account, and the parachain's id is
  -- the given one.
  pub testnet_genesis-IsCollating :
      (collators : List (AccountId × AuraId)) (endowed : List AccountId) (root : AccountId) (id : ℕ)
      → HasSmallDeposit R
      → IsCollating R
          (map collator_json collators)
          (2 ^ 60)
          id
          (testnet_genesis C R collators endowed root id)
  unfolding testnet_genesis session_keys invulnerables
  testnet_genesis-IsCollating collators endowed root id small = record {
    invulnerables_eq = rw (read_texts-map collators);
    session_eq = sessions-map collators;
    bond = R.existential_deposit * 16;
    bond_eq = refl;
    bond_affordable = omega arith;
    bond_above_deposit = omega arith;
    para_id_eq = refl;
  }

  -- Whatever the collators and accounts are, three keys of the patch name no pallet of this
  -- repository's runtime.
  pub testnet_genesis-unknown :
      (collators : List (AccountId × AuraId)) (endowed : List AccountId) (root : AccountId) (id : ℕ)
      → unknown (keys (testnet_genesis C R collators endowed root id))
        ≡ "parachainInfo" ∷ "collatorSelection" ∷ "polkadotXcm" ∷ []
  unfolding testnet_genesis
  testnet_genesis-unknown collators endowed root id = refl

  -- For fewer than 16 endowed accounts of which the root is the first, the patch funds them all,
  -- each at or above the existential deposit and together within `u64`.
  pub parachain_genesis-IsFunded :
      (collators : List (AccountId × AuraId)) (others : List AccountId) (root : AccountId) (id : ℕ)
      → HasSmallDeposit R
      → length others < 15
      → IsFunded
          (length others + 1)
          R.existential_deposit
          (testnet_genesis C R collators (root ∷ others) root id)
  unfolding testnet_genesis read_balances
  parachain_genesis-IsFunded collators others root id small few = record {
    endowed = map (λ k. (C.account_json k, 2 ^ 60)) (root ∷ others);
    endowed_balances = read_list-array C.account_json (2 ^ 60) (root ∷ others);
    endowed_count =
        omega (
          arith,
          length-map {B = Json × ℕ} (λ (k : C.AccountId). (C.account_json k, 2 ^ 60)) others,
        );
    above_deposit =
        All-map C.account_json (2 ^ 60) (λ b. R.existential_deposit ≤ b) (root ∷ others)
          (omega arith);
    issuance_fits = omega (arith, total_issuance-map C.account_json (2 ^ 60) (root ∷ others));
    root = C.account_json root;
    sudo_key = refl;
    root_balance = 2 ^ 60;
    others = map (λ k. (C.account_json k, 2 ^ 60)) others;
    root_endowed = refl;
  }
