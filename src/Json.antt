-- ===== src/Json.antt =====
-- JSON values, as `args` and the JSON schemas of the IR hold them.
use julep.Prelude.{
  Text, Bool, true, false, ℕ, zero, ℤ, pos, Option, none, some, [], text_eq, if◌then◌else◌,
}

-- A Python float: the finite ones are the fraction `num / (den + 1)`.
pub data Float : Type 0 where
  nan infinity neg_infinity : Float
  finite : (num : ℤ) (den : ℕ) → Float

mutual
  pub data Json : Type 0 where
    null : Json
    bool : Bool → Json
    int : ℤ → Json
    float : Float → Json
    str : Text → Json
    arr : Items → Json
    obj : Fields → Json

  pub data Items : Type 0 where
    nil : Items
    cons : Json → Items → Items

  -- A dict, by its entries.
  pub data Fields : Type 0 where
    end : Fields
    field : Text → Json → Fields → Fields

-- `d.get(k)` on an object.
unfoldable pub get_field : Text → Fields → Option Json
get_field k end = none
get_field k (field j v d) = if text_eq j k then some v else get_field k d

-- Python's `bool(value)`.
unfoldable pub truthy : Json → Bool
truthy null = false
truthy (bool b) = b
truthy (int (pos zero)) = false
truthy (int _) = true
truthy (float (finite (pos zero) den)) = false
truthy (float _) = true
truthy (str []) = false
truthy (str _) = true
truthy (arr nil) = false
truthy (arr _) = true
truthy (obj end) = false
truthy (obj _) = true

-- `isinstance(value, bool)`
abbrev pub is_bool : Json → Bool
is_bool (bool b) = true
is_bool _ = false
