-- ===== src/Object/Laws.antt =====
-- What the wrapper keeps of a JSON value.
use mathlib.Core.Option
use gomaasapi.Prelude.{
  Option, ◌≡◌, refl, ap, ◌↔◌, Bool, true, false, some, ok, err, arith, ℤ, Result,
}
use gomaasapi.Strings.{Text}
use gomaasapi.Value.{
  Value, null, str, num, int, uint, bool, obj, arr, Members, end, member, Elements, nil, cons,
}
use gomaasapi.Errors.{syntax_error}
use gomaasapi.Http.{Platform}
use gomaasapi.Http.Dispatch.{Client}
use gomaasapi.Object.{
  JsonObject, Fields, Items, object, nothing, text, float, boolean, fields, items, field, item,
  maasify, maasify_members, maasify_elements, plain, with_client, marshal, marshal_fields,
  marshal_items, is_nil, get_string, get_float64, get_bool, get_map, get_array, get_bytes, parse,
  json_object_from_struct, parse_result, with_bytes,
}

-- The values that encoding/json makes: no integer is among them.
unfoldable mutual
  pub IsJson : {F : Type 0} → Value F → Type 0
  IsJson null = Unit
  IsJson (str s) = Unit
  IsJson (num x) = Unit
  IsJson (int n) = ⊥
  IsJson (uint n) = ⊥
  IsJson (bool b) = Unit
  IsJson (obj m) = IsJsonMembers m
  IsJson (arr l) = IsJsonElements l

  IsJsonMembers : {F : Type 0} → Members F → Type 0
  IsJsonMembers end = Unit
  IsJsonMembers (member key v m) = IsJson v × IsJsonMembers m

  IsJsonElements : {F : Type 0} → Elements F → Type 0
  IsJsonElements nil = Unit
  IsJsonElements (cons v l) = IsJson v × IsJsonElements l

module _ (client : Option Client) where
  mutual
    unfolding maasify marshal IsJson

    marshal-maasify_value :
        {F : Type 0} (v : Value F)
        → IsJson v
        → (o : JsonObject F) × (maasify client v ≡ some o) × (marshal o ≡ v)
    marshal-maasify_value null h = (_, refl, refl)
    marshal-maasify_value (str s) h = (_, refl, refl)
    marshal-maasify_value (num x) h = (_, refl, refl)
    marshal-maasify_value (int n) h = absurd h
    marshal-maasify_value (uint n) h = absurd h
    marshal-maasify_value (bool b) h = (_, refl, refl)
    marshal-maasify_value (obj m) h =
        let (r, e, p) = marshal-maasify_members m h in
        (with_client client r, ap (Option.map (with_client client)) e, ap obj p)
    marshal-maasify_value (arr l) h =
        let (r, e, p) = marshal-maasify_elements l h in
        (plain (items r), ap (Option.map (λ r. plain (items r))) e, ap arr p)

    marshal-maasify_members :
        {F : Type 0} (m : Members F)
        → IsJsonMembers m
        → (r : Fields F) × (maasify_members client m ≡ some r) × (marshal_fields r ≡ m)
    marshal-maasify_members end h = (_, refl, refl)
    marshal-maasify_members (member key v m) (hv, hm) =
        let (o, e, p) = marshal-maasify_value v hv in
        let (r, f, q) = marshal-maasify_members m hm in (field key o r, rw (e, f), cc (p, q))

    marshal-maasify_elements :
        {F : Type 0} (l : Elements F)
        → IsJsonElements l
        → (r : Items F) × (maasify_elements client l ≡ some r) × (marshal_items r ≡ l)
    marshal-maasify_elements nil h = (_, refl, refl)
    marshal-maasify_elements (cons v l) (hv, hl) =
        let (o, e, p) = marshal-maasify_value v hv in
        let (r, f, q) = marshal-maasify_elements l hl in (item o r, rw (e, f), cc (p, q))

module _ (P : Platform) where
  open P use {Err}

  -- Each getter succeeds exactly on an object that stands for a JSON value of its type, with that
  -- value: a string, a number, a bool, a map or an array.
  pub getters_iff :
      (o : JsonObject P.Float) (s : Text) (x : P.Float) (b : Bool) (m : Members P.Float)
      (l : Elements P.Float)
      → ((get_string P o ≡ ok s) ↔ (marshal o ≡ str s))
        × ((get_float64 P o ≡ ok x) ↔ (marshal o ≡ num x))
        × ((get_bool P o ≡ ok b) ↔ (marshal o ≡ bool b))
        × (((r : Fields P.Float) × (get_map P o ≡ ok r) × (marshal_fields r ≡ m))
            ↔ (marshal o ≡ obj m))
        × (((r : Items P.Float) × (get_array P o ≡ ok r) × (marshal_items r ≡ l))
            ↔ (marshal o ≡ arr l))
  unfolding get_string get_float64 get_bool get_map get_array marshal
  getters_iff (object nothing bytes client is_null) s x b m l = ground arith
  getters_iff (object (text t) bytes client is_null) s x b m l = ground arith
  getters_iff (object (float y) bytes client is_null) s x b m l = ground arith
  getters_iff (object (boolean c) bytes client is_null) s x b m l = ground arith
  getters_iff (object (fields r) bytes client is_null) s x b m l = (
    ground arith,
    ground arith,
    ground arith,
    ((λ (r', e, p). cc), (λ h. (r, refl, cc))),
    ((λ (r', e, p). absurd cc), (λ h. absurd cc)),
  )
  getters_iff (object (items r) bytes client is_null) s x b m l = (
    ground arith,
    ground arith,
    ground arith,
    ((λ (r', e, p). absurd cc), (λ h. absurd cc)),
    ((λ (r', e, p). cc), (λ h. (r, refl, cc))),
  )

  parsed_value :
      (client : Option Client) (input : Text) (v : Value P.Float)
      → IsJson v
      → (o : JsonObject P.Float) × (maasify client v ≡ some o)
        × (marshal (with_bytes P input o) ≡ v)
        × (get_bytes P (with_bytes P input o) ≡ ok input)
        × ((is_nil (with_bytes P input o) ≡ true) ↔ (v ≡ null))
  unfolding maasify marshal is_nil get_bytes with_bytes IsJson
  parsed_value client input null h = (_, refl, refl, refl, ground arith)
  parsed_value client input (str s) h = (_, refl, refl, refl, ground arith)
  parsed_value client input (num x) h = (_, refl, refl, refl, ground arith)
  parsed_value client input (int n) h = absurd h
  parsed_value client input (uint n) h = absurd h
  parsed_value client input (bool b) h = (_, refl, refl, refl, ground arith)
  parsed_value client input (obj m) h =
      let (r, e, p) = marshal-maasify_members client m h in
      (with_client client r, ap (Option.map (with_client client)) e, ap obj p, refl, ground arith)
  parsed_value client input (arr l) h =
      let (r, e, p) = marshal-maasify_elements client l h in
      (plain (items r), ap (Option.map (λ r. plain (items r))) e, ap arr p, refl, ground arith)

  -- An input that is JSON is parsed to an object that is written back as the same value, whose raw
  -- bytes are the input, and which is nil exactly if the value is null.
  pub parse_json :
      (client : Option Client) (input : Text) (v : Value P.Float)
      → P.unmarshal input ≡ ok v
      → IsJson v
      → (o : JsonObject P.Float) × (parse P client input ≡ some (ok o))
        × (marshal o ≡ v)
        × (get_bytes P o ≡ ok input)
        × ((is_nil o ≡ true) ↔ (v ≡ null))
  unfolding parse
  parse_json client input v e h =
      let (o, f, p, q, r) = parsed_value client input v h in
      (with_bytes P input o, rw e (ap (Option.map (λ o. ok (with_bytes P input o))) f), p, q, r)

  -- An input that is no JSON is kept as raw bytes: it is not nil, and no getter but that of the bytes
  -- reads it.
  parse_raw :
      (client : Option Client) (input : Text) (e : Err) (offset : ℤ) (message : Text)
      → P.unmarshal input ≡ err e
      → P.errors.cause e ≡ syntax_error offset message
      → (o : JsonObject P.Float) × (parse P client input ≡ some (ok o))
        × (get_bytes P o ≡ ok input)
        × (is_nil o ≡ false)
        × (marshal o ≡ null)
  unfolding parse get_bytes is_nil marshal
  parse_raw client input e offset message h c =
      (object nothing (some input) client false, rw (h, parse_result, c), refl, refl, refl)

  -- A Go value whose encoding is JSON becomes an object that is written back as that JSON, and keeps
  -- the encoding.
  json_object_from_struct_lem :
      {A : Type 0} (marshal_indent : A → Result Err Text) (client : Option Client) (input : A)
      (j : Text) (v : Value P.Float)
      → marshal_indent input ≡ ok j
      → P.unmarshal j ≡ ok v
      → IsJson v
      → (o : JsonObject P.Float) × (json_object_from_struct P marshal_indent client input
          ≡ some (ok o))
        × (marshal o ≡ v)
        × (get_bytes P o ≡ ok j)
  unfolding json_object_from_struct
  json_object_from_struct_lem marshal_indent client input j v k e h =
      let (o, f, p, q, _) = parse_json client j v e h in
      (o, rw (json_object_from_struct, k) f, p, q)
