-- ===== src/Object.antt =====
-- jsonobject.go: wrapped JSON values, and the methods that read them.
pub mod Laws
pub mod Maas
use mathlib.Core.Option
use gomaasapi.Prelude.{
  Bool, true, false, Option, none, some, List, [], ◌∷◌, ◌++◌, Result, ok, err, if◌then◌else◌, ◌==◌,
  nat_eq, list_eq,
}
use gomaasapi.Strings.{Text, codes}
use gomaasapi.Value.{
  Value, null, str, num, int, uint, bool, obj, arr, Members, end, member, Elements, nil, cons,
}
use gomaasapi.Errors.{ErrorValue, syntax_error, invalid_utf8_error, other_error}
use gomaasapi.Http.{Platform}
use gomaasapi.Http.Dispatch.{Client}

-- JSONObject: its value, the raw bytes, the client and the mark of a JSON null. `nothing` is a nil
-- value; `none` is the client `Client{}`, which an object has that was made without one.
mutual
  pub data JsonObject (F : Type 0) : Type 0 where
    object : Content F → Option Text → Option Client → Bool → JsonObject F

  pub data Content (F : Type 0) : Type 0 where
    nothing : Content F
    text : Text → Content F
    float : F → Content F
    boolean : Bool → Content F
    fields : Fields F → Content F
    items : Items F → Content F

  pub data Fields (F : Type 0) : Type 0 where
    no_fields : Fields F
    field : Text → JsonObject F → Fields F → Fields F

  pub data Items (F : Type 0) : Type 0 where
    no_items : Items F
    item : JsonObject F → Items F → Items F

abbrev pub resource_uri : Text
resource_uri = codes "resource_uri"

-- `JSONObject{value: value}`
abbrev pub plain : {F : Type 0} → Content F → JsonObject F
plain value = object value none none false

-- `JSONObject{value: result, client: client}`
abbrev pub with_client : {F : Type 0} → Option Client → Fields F → JsonObject F
with_client client m = object (fields m) none client false

abbrev pub add_field :
    {F : Type 0} → Text → Option (JsonObject F) → Option (Fields F) → Option (Fields F)
add_field key (some v) (some m) = some (field key v m)
add_field key _ _ = none

abbrev pub add_item : {F : Type 0} → Option (JsonObject F) → Option (Items F) → Option (Items F)
add_item (some v) (some l) = some (item v l)
add_item _ _ = none

-- maasify; `none` is the panic on a value of a type that JSON has not.
module _ (client : Option Client) where
  unfoldable mutual
    pub maasify : {F : Type 0} → Value F → Option (JsonObject F)
    maasify null = some (object nothing none none true)
    maasify (str s) = some (plain (text s))
    maasify (num x) = some (plain (float x))
    maasify (int n) = none
    maasify (uint n) = none
    maasify (bool b) = some (plain (boolean b))
    maasify (obj m) = Option.map (with_client client) (maasify_members m)
    maasify (arr l) = Option.map (λ r. plain (items r)) (maasify_elements l)

    pub maasify_members : {F : Type 0} → Members F → Option (Fields F)
    maasify_members end = some no_fields
    maasify_members (member key v m) = add_field key (maasify v) (maasify_members m)

    pub maasify_elements : {F : Type 0} → Elements F → Option (Items F)
    maasify_elements nil = some no_items
    maasify_elements (cons v l) = add_item (maasify v) (maasify_elements l)

-- IsNil
unfoldable pub is_nil : {F : Type 0} → JsonObject F → Bool
is_nil (object nothing none client is_null) = true
is_nil (object nothing (some bytes) client is_null) = is_null
is_nil (object _ bytes client is_null) = false

-- The value that MarshalJSON writes, of the object and of those in it.
unfoldable mutual
  pub marshal : {F : Type 0} → JsonObject F → Value F
  marshal (object nothing bytes client is_null) = null
  marshal (object (text s) bytes client is_null) = str s
  marshal (object (float x) bytes client is_null) = num x
  marshal (object (boolean b) bytes client is_null) = bool b
  marshal (object (fields m) bytes client is_null) = obj (marshal_fields m)
  marshal (object (items l) bytes client is_null) = arr (marshal_items l)

  pub marshal_fields : {F : Type 0} → Fields F → Members F
  marshal_fields no_fields = end
  marshal_fields (field key v m) = member key (marshal v) (marshal_fields m)

  pub marshal_items : {F : Type 0} → Items F → Elements F
  marshal_items no_items = nil
  marshal_items (item v l) = cons (marshal v) (marshal_items l)

module _ (P : Platform) where
  open P use {Err}

  -- `%T` of the value that an object holds
  type_name : Content P.Float → Text
  type_name nothing = codes "<nil>"
  type_name (text s) = codes "string"
  type_name (float x) = codes "float64"
  type_name (boolean b) = codes "bool"
  type_name (fields m) = codes "map[string]gomaasapi.JSONObject"
  type_name (items l) = codes "[]gomaasapi.JSONObject"

  value_of : JsonObject P.Float → Content P.Float
  value_of (object value bytes client is_null) = value

  -- failConversion
  unfoldable pub fail_conversion : Text → JsonObject P.Float → Err
  unfolding type_name value_of
  fail_conversion wanted o = P.errors.new (
      other_error
        (codes "Requested " ++ wanted ++ codes ", got " ++ type_name (value_of o) ++ codes "."))

  -- GetString, GetFloat64, GetMap, GetArray, GetBool and GetBytes
  unfoldable pub get_string : JsonObject P.Float → Result Err Text
  get_string (object (text s) bytes client is_null) = ok s
  get_string o = err (fail_conversion (codes "string") o)

  unfoldable pub get_float64 : JsonObject P.Float → Result Err P.Float
  get_float64 (object (float x) bytes client is_null) = ok x
  get_float64 o = err (fail_conversion (codes "float64") o)

  unfoldable pub get_map : JsonObject P.Float → Result Err (Fields P.Float)
  get_map (object (fields m) bytes client is_null) = ok m
  get_map o = err (fail_conversion (codes "map") o)

  unfoldable pub get_array : JsonObject P.Float → Result Err (Items P.Float)
  get_array (object (items l) bytes client is_null) = ok l
  get_array o = err (fail_conversion (codes "array") o)

  unfoldable pub get_bool : JsonObject P.Float → Result Err Bool
  get_bool (object (boolean b) bytes client is_null) = ok b
  get_bool o = err (fail_conversion (codes "bool") o)

  unfoldable pub get_bytes : JsonObject P.Float → Result Err Text
  get_bytes (object value (some bytes) client is_null) = ok bytes
  get_bytes o = err (fail_conversion (codes "bytes") o)

  unfoldable pub with_bytes : Text → JsonObject P.Float → JsonObject P.Float
  with_bytes input (object value bytes client is_null) = object value (some input) client is_null

  -- What an unmarshalling error makes of the input: raw data, if it is no JSON.
  unfoldable pub parse_error :
      Option Client → Text → Err → ErrorValue → Result Err (JsonObject P.Float)
  parse_error client input e (syntax_error offset message) =
      ok (object nothing (some input) client false)
  parse_error client input e (invalid_utf8_error message) =
      ok (object nothing (some input) client false)
  parse_error client input e _ = err e

  unfoldable pub parse_result :
      Option Client → Text → Result Err (Value P.Float) → Option (Result Err (JsonObject P.Float))
  parse_result client input (ok v) = Option.map (λ o. ok (with_bytes input o)) (maasify client v)
  parse_result client input (err e) = some (parse_error client input e (P.errors.cause e))

  -- Parse, of an input that is not nil; `none` is a panic. An error of encoding/json is its own cause.
  unfoldable pub parse : Option Client → Text → Option (Result Err (JsonObject P.Float))
  unfolding parse_result parse_error with_bytes
  parse client input = parse_result client input (P.unmarshal input)

  -- JSONObjectFromStruct, over json.MarshalIndent of the values of a Go type.
  unfoldable pub json_object_from_struct :
      {A : Type 0}
      → (A → Result Err Text)
      → Option Client
      → A
      → Option (Result Err (JsonObject P.Float))
  json_object_from_struct marshal_indent client input = elim (marshal_indent input) [
    | ok j ↦ parse client j
    | err e ↦ some (err e)
  ]
