-- ===== src/Reading.antt =====
-- How the program reads objects from answers: the checks, the type assertions on what a check gave,
-- and the choice of a reading function by the version of the API. The functions that read lists are
-- the same text for every type but for the name in their messages and for two styles of error.
pub mod Choice
pub mod Items
pub mod Sound
use mathlib.Core.Option
use gomaasapi.Prelude.{
  ℕ, suc, Bool, true, false, not, ◌&&◌, Option, none, some, List, [], ◌∷◌, ◌++◌, if◌then◌else◌,
  ◌==◌, nat_eq, list_eq, ℤ, pos, not_positive, Result, ok, err,
}
use gomaasapi.Strings.{Text, codes}
use gomaasapi.Strings.Decimal.{itoa}
use gomaasapi.Errors.{
  other_error, new_unsupported_version_error, new_deserialization_error,
  wrap_with_deserialization_error,
}
use gomaasapi.Value.{
  Value, null, str, num, int, uint, bool, obj, arr, Members, end, member, Elements, field, items_of,
  members_of,
}
use gomaasapi.Versions.{Version, zero_version, two_dot_oh, version_beq}
use gomaasapi.Http.{Platform}
use gomaasapi.Schema.{Checker, any, list, string_map, Juju}

-- What ends a function early: an error that it returns, or a panic.
pub data Fault {ℓ} (E : Type ℓ) : Type ℓ where
  returned : E → Fault E
  panicked : Fault E

-- Steps one after the other, up to the first that does not succeed.
infixl 5 ◌>>=◌
abbrev pub ◌>>=◌ {ℓ κ ι} :
    {E : Type ℓ} {A : Type κ} {B : Type ι} → Result E A → (A → Result E B) → Result E B
ok a >>= f = f a
err e >>= f = err e

-- The error of a step is rewritten; a panic passes.
abbrev pub rewrap {ℓ κ} :
    {E : Type ℓ} {A : Type κ} → (E → E) → Result (Fault E) A → Result (Fault E) A
rewrap f (ok a) = ok a
rewrap f (err (returned e)) = err (returned (f e))
rewrap f (err panicked) = err panicked

-- errors.Annotatef and errors.Errorf, or the errors of errors.go
pub data Style : Type 0 where
  plain typed : Style

-- The two-part type assertions: the zero value where the type is another.
abbrev pub string_or_empty : {F : Type 0} → Value F → Text
string_or_empty (str s) = s
string_or_empty v = []

abbrev pub map_of : {F : Type 0} → Value F → Option (Members F)
map_of (obj m) = some m
map_of v = none

-- `valid[key]`: nil where the key is missing
abbrev pub or_null : {F : Type 0} → Option (Value F) → Value F
or_null none = null
or_null (some v) = v

unfoldable pub at : {F : Type 0} → Text → Members F → Value F
at key m = or_null (field key m)

-- `fmt.Sprintf("%T", value)`
type_text : {F : Type 0} → Value F → Text
type_text null = codes "<nil>"
type_text (str s) = codes "string"
type_text (num x) = codes "float64"
type_text (int n) = codes "int"
type_text (uint n) = codes "uint64"
type_text (bool b) = codes "bool"
type_text (obj m) = codes "map[string]interface {}"
type_text (arr l) = codes "[]interface {}"

module _ (P : Platform) where
  open P use {Err, Float}

  abbrev pub Read {ℓ} : Type ℓ → Type ℓ
  Read A = Result (Fault Err) A

  abbrev pub to_read {ℓ} : {A : Type ℓ} → Result Err A → Read A
  to_read (ok a) = ok a
  to_read (err e) = err (returned e)

  -- The type assertions that panic.
  abbrev pub assert_string : Value Float → Read Text
  assert_string (str s) = ok s
  assert_string v = err panicked

  abbrev pub assert_int : Value Float → Read ℤ
  assert_int (int n) = ok n
  assert_int v = err panicked

  abbrev pub assert_uint : Value Float → Read ℕ
  assert_uint (uint n) = ok n
  assert_uint v = err panicked

  abbrev pub assert_bool : Value Float → Read Bool
  assert_bool (bool b) = ok b
  assert_bool v = err panicked

  abbrev pub assert_map : Value Float → Read (Members Float)
  assert_map (obj m) = ok m
  assert_map v = err panicked

  abbrev pub assert_list : Value Float → Read (List (Value Float))
  assert_list (arr l) = ok (items_of l)
  assert_list v = err panicked

  -- The loops of convertToStringSlice and convertToStringMap
  unfoldable pub assert_strings : List (Value Float) → Read (List Text)
  assert_strings [] = ok []
  assert_strings (v ∷ vs) = do s ← assert_string v; rest ← assert_strings vs; ok (s ∷ rest)

  unfoldable pub assert_entries : List (Text × Value Float) → Read (List (Text × Text))
  assert_entries [] = ok []
  assert_entries ((k, v) ∷ m) = do s ← assert_string v; rest ← assert_entries m; ok ((k, s) ∷ rest)

  -- convertToStringSlice
  unfoldable pub convert_to_string_slice : Value Float → Read (List Text)
  unfolding assert_strings
  convert_to_string_slice null = ok []
  convert_to_string_slice v = do l ← assert_list v; assert_strings l

  -- convertToStringMap
  unfoldable pub convert_to_string_map : Value Float → Read (List (Text × Text))
  unfolding assert_entries
  convert_to_string_map null = ok []
  convert_to_string_map v = do m ← assert_map v; assert_entries (members_of m)

  -- A map of reading functions, by version, as a list in the order of its iteration.
  abbrev pub Funcs : Type 0 → Type 0
  Funcs A = List (Version × (Members Float → Read A))

  abbrev pub only_two_dot_oh : {A : Type 0} → (Members Float → Read A) → Funcs A
  only_two_dot_oh f = (two_dot_oh, f) ∷ []

  unfoldable pub find_func : {A : Type 0} → Version → Funcs A → Read (Members Float → Read A)
  find_func v [] = err panicked
  find_func v ((w, f) ∷ funcs) = if version_beq w v then ok f else find_func v funcs

  module _ (J : Juju P) where
    -- The loop over the versions, with the version found so far.
    unfoldable pub deserialisation_version : {A : Type 0} → Version → Version → Funcs A → Version
    deserialisation_version controller best [] = best
    deserialisation_version controller best ((v, f) ∷ funcs) =
        deserialisation_version controller
          (if not (not_positive (J.compare v best)) && not_positive (J.compare v controller)
            then v
            else best)
          funcs

    pub no_read_func : Style → Text → Version → Err
    no_read_func plain name v =
        P.errors.new
          (other_error (codes "no " ++ name ++ codes " read func for version " ++ J.version_text v))
    no_read_func typed name v =
        new_unsupported_version_error P.errors
          (codes "no " ++ name ++ codes " read func for version " ++ J.version_text v)

    -- The choice of the function that reads
    unfoldable pub select :
        {A : Type 0} → Style → Text → Version → Funcs A → Read (Members Float → Read A)
    unfolding no_read_func deserialisation_version find_func
    select style name controller funcs =
        let v = deserialisation_version controller zero_version funcs in
        if version_beq v zero_version
        then err (returned (no_read_func style name controller))
        else find_func v funcs

    check_failed : Style → Text → Err → Err
    check_failed plain message e = P.errors.annotate e message
    check_failed typed message e = wrap_with_deserialization_error P.errors e message

    -- A check, with its error in one of the styles
    unfoldable pub checked : Style → Text → Checker Float → Value Float → Read (Value Float)
    unfolding check_failed
    checked style message c v = rewrap (check_failed style message) (to_read (J.coerce c v))

    pub unexpected_item : Style → Text → ℕ → Value Float → Err
    unexpected_item plain name i v = P.errors.new (
        other_error (
          codes "unexpected value for "
          ++ name
          ++ codes " "
          ++ itoa (pos i)
          ++ codes ", "
          ++ type_text v))
    unexpected_item typed name i v = new_deserialization_error P.errors (
        codes "unexpected value for "
        ++ name
        ++ codes " "
        ++ itoa (pos i)
        ++ codes ", "
        ++ type_text v)

    module _ {A : Type 0} (style : Style) (name : Text) where
      -- One element of a list
      pub read_item : (Members Float → Read A) → ℕ → Value Float → Read A
      unfolding unexpected_item type_text
      read_item f i v = elim (map_of v) [
        | none ↦ err (returned (unexpected_item style name i v))
        | some m ↦ rewrap (λ e. P.errors.annotate e (name ++ codes " " ++ itoa (pos i))) (f m)
      ]

      -- The loop of readVLANList and the like, from the element with this index
      unfoldable pub read_items : (Members Float → Read A) → ℕ → List (Value Float) → Read (List A)
      unfolding read_item
      read_items f i [] = ok []
      read_items f i (v ∷ vs) = do
        a ← read_item f i v
        rest ← read_items f (suc i) vs
        ok (a ∷ rest)

      -- readVLANs and the like, which check the answer first
      unfoldable pub read_all : Funcs A → Version → Value Float → Read (List A)
      unfolding read_items select checked
      read_all funcs controller source = do
        coerced ←
            checked style (name ++ codes " base schema check failed") (list (string_map any)) source
        valid ← assert_list coerced
        f ← select style name controller funcs
        read_items f 0 valid

      -- readMachines and the like, which choose the function first
      unfoldable pub select_and_read_all : Funcs A → Version → Value Float → Read (List A)
      unfolding read_items select checked
      select_and_read_all funcs controller source = do
        f ← rewrap P.errors.trace (select style name controller funcs)
        coerced ←
            checked style (name ++ codes " base schema check failed") (list (string_map any)) source
        valid ← assert_list coerced
        read_items f 0 valid

      -- readMachine and the like
      unfoldable pub select_and_read : Funcs A → Version → Value Float → Read A
      unfolding select checked
      select_and_read funcs controller source = do
        f ← rewrap P.errors.trace (select style name controller funcs)
        coerced ← checked style (name ++ codes " base schema check failed") (string_map any) source
        valid ← assert_map coerced
        f valid
