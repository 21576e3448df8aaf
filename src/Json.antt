-- ===== src/Json.antt =====
-- What json.Unmarshal makes of a text in a value of type interface{}, and the type assertions that
-- the code makes on it. A number is `num` where it is whole and not negative; any other is `real`,
-- with the integer that a conversion to int makes of it.
use snapshot_sequencer_valid.Base.{
  ℕ, Text, Bool, Option, none, some, List, [], ◌∷◌, text_eq, get, ℤ, pos,
}

mutual
  pub data Json : Type 0 where
    null : Json
    bool : Bool → Json
    num : ℕ → Json
    real : ℤ → Json
    str : Text → Json
    arr : Items → Json
    obj : Fields → Json

  pub data Items : Type 0 where
    nil : Items
    cons : Json → Items → Items

  pub data Fields : Type 0 where
    end : Fields
    field : Text → Json → Fields → Fields

abbrev pub entries : Fields → List (Text × Json)
entries end = []
entries (field k v fs) = (k, v) ∷ entries fs

abbrev pub items : Items → List Json
items nil = []
items (cons v vs) = v ∷ items vs

-- v.(map[string]interface{})
abbrev pub as_map : Json → Option (List (Text × Json))
as_map (obj fs) = some (entries fs)
as_map _ = none

-- v.(string)
abbrev pub as_string : Json → Option Text
as_string (str s) = some s
as_string _ = none

-- v.(float64), of a whole number
abbrev pub as_number : Json → Option ℕ
as_number (num n) = some n
as_number _ = none

-- v.(float64) as the integer that a conversion to int gives
abbrev pub as_int : Json → Option ℤ
as_int (num n) = some (pos n)
as_int (real z) = some z
as_int _ = none

-- v.([]interface{})
abbrev pub as_array : Json → Option (List Json)
as_array (arr vs) = some (items vs)
as_array _ = none

infixl 5 ◌>>=◌
abbrev pub ◌>>=◌ {ℓ κ} : {A : Type ℓ} {B : Type κ} → Option A → (A → Option B) → Option B
none >>= f = none
some a >>= f = f a

-- m[key].(T), for the assertion of a type T
unfoldable pub member {ℓ} : {T : Type ℓ} → (Json → Option T) → Text → List (Text × Json) → Option T
unfolding get
member cast key m = do v ← get key m; cast v
