-- ===== src/Values.antt =====
-- Python's values as far as a call's arguments, a state or a configuration hold them.
use exactly_once.Prelude.{ℕ, String, Bool, Option, none, some, List, [], ◌∷◌, str_eq, if◌then◌else◌}
use exactly_once.Dict.{Dict}

-- `opaque n` is an object that is none of the others; `n` tells them apart.
mutual
  pub data Value : Type 0 where
    null : Value
    bool : Bool → Value
    int : ℕ → Value
    text : String → Value
    arr : Items → Value
    obj : Fields → Value
    opaque : ℕ → Value

  pub data Items : Type 0 where
    end_items : Items
    item : Value → Items → Items

  pub data Fields : Type 0 where
    end_fields : Fields
    field : String → Value → Fields → Fields

abbrev pub items : List Value → Items
items [] = end_items
items (v ∷ vs) = item v (items vs)

abbrev pub fields : Dict Value → Fields
fields [] = end_fields
fields ((k, v) ∷ d) = field k v (fields d)

abbrev pub get_field : String → Fields → Option Value
get_field k end_fields = none
get_field k (field j v d) = if str_eq j k then some v else get_field k d

-- `isinstance(v, str)`
abbrev pub as_text : Value → Option String
as_text (text s) = some s
as_text _ = none
