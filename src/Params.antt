-- ===== src/Params.antt =====
-- urlparams.go: query parameters, added only where they say something. `url.Values`, a map from
-- names to lists of values, is an association list with one entry for each name.
pub mod Laws
use gomaasapi.Prelude.{
  Bool, true, false, List, [], ◌∷◌, ◌++◌, if◌then◌else◌, ◌==◌, nat_eq, list_eq, ℤ, pos, int_eq,
}
use gomaasapi.Strings.{Text, codes}
use gomaasapi.Strings.Decimal.{itoa}

abbrev pub Values : Type 0
Values = List (Text × List Text)

-- `values[key]`, which is the nil slice for a name that the map lacks
unfoldable pub values_of : Text → Values → List Text
values_of key [] = []
values_of key ((name, vs) ∷ p) = if name == key then vs else values_of key p

-- The first value, or the empty string: `Values.Get`.
unfoldable pub first_value : List Text → Text
first_value [] = []
first_value (v ∷ vs) = v

unfoldable pub get : Text → Values → Text
get key p = first_value (values_of key p)

-- `Values.Set`
unfoldable pub set : Text → Text → Values → Values
set key value [] = (key, value ∷ []) ∷ []
set key value ((name, vs) ∷ p) =
    if name == key then (name, value ∷ []) ∷ p else (name, vs) ∷ set key value p

-- `Values.Add`
unfoldable pub add : Text → Text → Values → Values
add key value [] = (key, value ∷ []) ∷ []
add key value ((name, vs) ∷ p) =
    if name == key then (name, vs ++ value ∷ []) ∷ p else (name, vs) ∷ add key value p

-- NewURLParams
abbrev pub new_url_params : Values
new_url_params = []

-- MaybeAdd
unfoldable pub maybe_add : Text → Text → Values → Values
maybe_add name value p = if value == [] then p else add name value p

-- MaybeAddInt
unfoldable pub maybe_add_int : Text → ℤ → Values → Values
maybe_add_int name value p = if value == pos 0 then p else add name (itoa value) p

-- MaybeAddBool
unfoldable pub maybe_add_bool : Text → Bool → Values → Values
maybe_add_bool name value p = if value then add name (codes "true") p else p

-- MaybeAddMany
unfoldable pub maybe_add_many : Text → List Text → Values → Values
maybe_add_many name [] p = p
maybe_add_many name (value ∷ values) p = maybe_add_many name values (maybe_add name value p)
