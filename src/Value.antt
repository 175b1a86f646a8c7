-- ===== src/Value.antt =====
-- `interface{}` values, as encoding/json makes them of a text and as schema checks coerce them: nil,
-- a string, a float64, an int, a uint64, a bool, a map or a slice. A map is a list of members, whose names the
-- decoder keeps distinct. The type of the floats is a parameter.
use gomaasapi.Prelude.{
  ℕ, List, [], ◌∷◌, ℤ, Bool, Option, none, some, if◌then◌else◌, ◌==◌, nat_eq, list_eq,
}
use gomaasapi.Strings.{Text}

mutual
  pub data Value (F : Type 0) : Type 0 where
    null : Value F
    str : Text → Value F
    num : F → Value F
    int : ℤ → Value F
    uint : ℕ → Value F
    bool : Bool → Value F
    obj : Members F → Value F
    arr : Elements F → Value F

  pub data Members (F : Type 0) : Type 0 where
    end : Members F
    member : Text → Value F → Members F → Members F

  pub data Elements (F : Type 0) : Type 0 where
    nil : Elements F
    cons : Value F → Elements F → Elements F

-- `source[key]`
unfoldable pub field : {F : Type 0} → Text → Members F → Option (Value F)
field key end = none
field key (member name v m) = if name == key then some v else field key m

-- The elements of a slice, and the entries of a map, as lists.
abbrev pub items_of : {F : Type 0} → Elements F → List (Value F)
items_of nil = []
items_of (cons v l) = v ∷ items_of l

abbrev pub members_of : {F : Type 0} → Members F → List (Text × Value F)
members_of end = []
members_of (member key v m) = (key, v) ∷ members_of m
