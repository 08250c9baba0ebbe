-- ===== src/Node/Genesis.antt =====
-- A genesis patch as the pallets read it: `pallet_balances` takes a list of pairs of an account and
-- a balance, and every key of the patch must be a field of the runtime's genesis configuration.
use mathlib.Core.Option
use sub0_bangkok_challenges.Common.{
  ℕ, ◌+◌, ◌*◌, ◌^◌, ◌≤◌, ◌<◌, ◌≡◌, refl, Option, none, some, List, [], ◌∷◌, map, arith, All, length,
}
use sub0_bangkok_challenges.Node.Json.{Json, num, arr, Items, nil, cons, items, array, get}

-- One entry of `balances.balances`.
pub entry : Json → Option (Json × ℕ)
entry (arr (cons account (cons (num balance) nil))) = some (account, balance)
entry _ = none

entries : Items → Option (List (Json × ℕ))
unfolding entry
entries nil = some []
entries (cons x xs) = elim (entry x) [
  | none ↦ none
  | some e ↦ Option.map (λ es. e ∷ es) (entries xs)
]

pub read_list : Json → Option (List (Json × ℕ))
unfolding entries
read_list (arr xs) = entries xs
read_list _ = none

-- `balances.balances` of a genesis patch.
unfoldable pub read_balances : Json → Option (List (Json × ℕ))
unfolding read_list Option.bind
read_balances patch = Option.bind (Option.bind (get "balances" patch) (get "balances")) read_list

pub total_issuance : List (Json × ℕ) → ℕ
total_issuance [] = 0
total_issuance ((_, balance) ∷ es) = balance + total_issuance es

module _ {A : Type 0} (json : A → Json) (balance : ℕ) where
  abbrev pub balance_json : A → Json
  balance_json a = array (json a ∷ num balance ∷ [])

  entries-map :
      (xs : List A) → entries (items (map balance_json xs)) ≡ some (map (λ a. (json a, balance)) xs)
  unfolding entries
  entries-map [] = refl
  entries-map (x ∷ xs) = rw (entries-map xs)

  -- A list of pairs of an account and one balance is read back.
  pub read_list-array :
      (xs : List A)
      → read_list (array (map balance_json xs)) ≡ some (map (λ a. (json a, balance)) xs)
  unfolding read_list
  read_list-array xs = entries-map xs

  pub total_issuance-map :
      (xs : List A) → total_issuance (map (λ a. (json a, balance)) xs) ≡ length xs * balance
  unfolding total_issuance
  total_issuance-map [] = omega arith
  total_issuance-map (x ∷ xs) = omega (arith, total_issuance-map xs)

  pub All-map :
      (P : ℕ → Type 0) (xs : List A)
      → P balance
      → All (λ (e : Json × ℕ). P e.1) (map (λ a. (json a, balance)) xs)
  All-map P [] h = tt
  All-map P (x ∷ xs) h = (h, All-map P xs h)

-- What a chain needs of its genesis: funds for `accounts` accounts that fit `u64` together, each at
-- or above the existential deposit, the first of them the holder of the sudo key.
pub record IsFunded (accounts deposit : ℕ) (patch : Json) : Type 0 where
  pub endowed : List (Json × ℕ)
  pub endowed_balances : read_balances patch ≡ some endowed
  pub endowed_count : length endowed ≡ accounts
  pub above_deposit : All (λ (e : Json × ℕ). deposit ≤ e.1) endowed
  pub issuance_fits : total_issuance endowed < 2 ^ 64
  pub root : Json
  pub sudo_key : Option.bind (get "sudo" patch) (get "key") ≡ some root
  pub root_balance : ℕ
  pub others : List (Json × ℕ)
  pub root_endowed : endowed ≡ (root, root_balance) ∷ others
