-- ===== src/Runtime/Pallets.antt =====
-- The pallets of `construct_runtime`, challenge-3/runtime/src/lib.rs, with their indices.
use sub0_bangkok_challenges.Common.{
  Bool, false, str_eq, ◌||◌, if◌then◌else◌, Option, none, some, ℕ, String, List, [], ◌∷◌,
}

pub data Pallet : Type 0 where
  system timestamp balances transaction_payment sudo authorship session aura grandpa : Pallet

abbrev pub pallet_index : Pallet → ℕ
pallet_index system = 0
pallet_index timestamp = 2
pallet_index balances = 10
pallet_index transaction_payment = 11
pallet_index sudo = 15
pallet_index authorship = 20
pallet_index session = 22
pallet_index aura = 23
pallet_index grandpa = 25

-- `AllPalletsWithSystem`, in the order of declaration.
abbrev pub all_pallets : List Pallet
all_pallets =
    system ∷ timestamp ∷ balances ∷ transaction_payment ∷ sudo ∷ authorship ∷ session ∷ aura
    ∷ grandpa ∷ []

-- The field of `RuntimeGenesisConfig`, as serde names it: the pallets that have a genesis
-- configuration.
abbrev pub genesis_key : Pallet → Option String
genesis_key system = some "system"
genesis_key timestamp = none
genesis_key balances = some "balances"
genesis_key transaction_payment = some "transactionPayment"
genesis_key sudo = some "sudo"
genesis_key authorship = none
genesis_key session = some "session"
genesis_key aura = some "aura"
genesis_key grandpa = some "grandpa"

-- The key is one of the pallets'.
abbrev pub among : String → List Pallet → Bool
among key [] = false
among key (p ∷ ps) = elim (genesis_key p) [
  | none ↦ among key ps
  | some k ↦ str_eq key k || among key ps
]

-- The keys that name no pallet of the runtime.
abbrev pub unknown : List String → List String
unknown [] = []
unknown (key ∷ keys) = if among key all_pallets then unknown keys else key ∷ unknown keys
