-- ===== src/Node/Json.antt =====
-- `serde_json::Value`, as far as the genesis patches use it.
use sub0_bangkok_challenges.Common.{ℕ, String, List, [], ◌∷◌, Option, none, some}
use sub0_bangkok_challenges.Common.{str_eq, if◌then◌else◌}

mutual
  pub data Json : Type 0 where
    null : Json
    num : ℕ → Json
    text : String → Json
    arr : Items → Json
    obj : Fields → Json

  pub data Items : Type 0 where
    nil : Items
    cons : Json → Items → Items

  pub data Fields : Type 0 where
    end : Fields
    field : String → Json → Fields → Fields

abbrev pub items : List Json → Items
items [] = nil
items (x ∷ xs) = cons x (items xs)

abbrev pub array : List Json → Json
array xs = arr (items xs)

abbrev pub fields : List (String × Json) → Fields
fields [] = end
fields ((k, v) ∷ m) = field k v (fields m)

abbrev pub object : List (String × Json) → Json
object m = obj (fields m)

abbrev pub find : String → Fields → Option Json
find k end = none
find k (field j v m) = if str_eq k j then some v else find k m

-- `value[key]`
abbrev pub get : String → Json → Option Json
get k (obj m) = find k m
get k null = none
get k (num n) = none
get k (text s) = none
get k (arr xs) = none

abbrev pub names : Fields → List String
names end = []
names (field k v m) = k ∷ names m

-- The keys of an object.
abbrev pub keys : Json → List String
keys (obj m) = names m
keys null = []
keys (num n) = []
keys (text s) = []
keys (arr xs) = []
