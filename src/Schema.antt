-- ===== src/Schema.antt =====
-- Checks of values by github.com/juju/schema, as the program builds them, and what it relies on from
-- that package and from github.com/juju/version, as the parameter `Juju`.
use gomaasapi.Prelude.{ℕ, ◌≡◌, ◌⊎◌, Bool, none, some, All, Result, ok, ℤ, not_positive}
use gomaasapi.Strings.{Text}
use gomaasapi.Value.{
  Value, null, str, int, uint, bool, obj, arr, Members, Elements, field, items_of, members_of,
}
use gomaasapi.Versions.{Version, version_leb}
use gomaasapi.Http.{Platform}

-- Any, String, Bool, ForceInt, ForceUint, Nil, OneOf, List, StringMap and FieldMap; a field of a
-- FieldMap has a default value, or is left out where it is missing (Omit), or neither.
mutual
  pub data Checker (F : Type 0) : Type 0 where
    any : Checker F
    string : Checker F
    boolean : Checker F
    force_int : Checker F
    force_uint : Checker F
    nothing : Checker F
    one_of : Checkers F → Checker F
    list : Checker F → Checker F
    string_map : Checker F → Checker F
    field_map : FieldList F → Checker F

  pub data Checkers (F : Type 0) : Type 0 where
    no_more : Checkers F
    either : Checker F → Checkers F → Checkers F

  pub data FieldList (F : Type 0) : Type 0 where
    no_fields : FieldList F
    need : Text → Checker F → FieldList F → FieldList F
    or_default : Text → Value F → Checker F → FieldList F → FieldList F
    or_omit : Text → Checker F → FieldList F → FieldList F

-- `schema.OneOf(schema.Nil(""), c)`
abbrev pub nil_or : {F : Type 0} → Checker F → Checker F
nil_or c = one_of (either nothing (either c no_more))

-- The values that a check gives. A field that is needed is in the map, with a value of its checker
-- (nil, where the checker takes it), and so is one with a default; one that may be left out is
-- there or not.
abbrev mutual
  pub Shaped : {F : Type 0} → Checker F → Value F → Type 0
  Shaped any v = Unit
  Shaped string v = (s : Text) × (v ≡ str s)
  Shaped boolean v = (b : Bool) × (v ≡ bool b)
  Shaped force_int v = (n : ℤ) × (v ≡ int n)
  Shaped force_uint v = (n : ℕ) × (v ≡ uint n)
  Shaped nothing v = v ≡ null
  Shaped (one_of cs) v = ShapedOne cs v
  Shaped {F} (list c) v = (l : Elements F) × (v ≡ arr l) × All (Shaped c) (items_of l)
  Shaped {F} (string_map c) v =
      (m : Members F) × (v ≡ obj m) × All (λ (k, u). Shaped c u) (members_of m)
  Shaped {F} (field_map fs) v = (m : Members F) × (v ≡ obj m) × ShapedFields fs m

  pub ShapedOne : {F : Type 0} → Checkers F → Value F → Type 0
  ShapedOne no_more v = ⊥
  ShapedOne (either c cs) v = Shaped c v ⊎ ShapedOne cs v

  pub ShapedFields : {F : Type 0} → FieldList F → Members F → Type 0
  ShapedFields no_fields m = Unit
  ShapedFields {F} (need k c fs) m =
      ((v : Value F) × (field k m ≡ some v) × Shaped c v) × ShapedFields fs m
  ShapedFields {F} (or_default k d c fs) m =
      ((v : Value F) × (field k m ≡ some v) × Shaped c v) × ShapedFields fs m
  ShapedFields {F} (or_omit k c fs) m =
      ((field k m ≡ none) ⊎ ((v : Value F) × (field k m ≡ some v) × Shaped c v)) × ShapedFields fs m

module _ (P : Platform) where
  pub record Juju : Type 0 where
    -- Checker.Coerce
    pub coerce : Checker P.Float → Value P.Float → Result P.Err (Value P.Float)
    pub coerce-Shaped : (c : Checker P.Float) (v u : Value P.Float) → coerce c v ≡ ok u → Shaped c u
    -- Number.Compare, negative, zero or positive as its first version is before, at or after the other
    pub compare : Version → Version → ℤ
    pub compare_iff : (v w : Version) → not_positive (compare v w) ≡ version_leb v w
    -- Number.String
    pub version_text : Version → Text
    -- version.ParseMajorMinor
    pub parse_major_minor : Text → Result P.Err Version
