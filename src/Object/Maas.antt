-- ===== src/Object/Maas.antt =====
-- maasobject.go: a JSON map with a resource URI, and the calls of the API on it. A panic of the
-- program is `none`.
pub mod Laws
use mathlib.Core.Option
use gomaasapi.Prelude.{
  Bool, true, false, Option, none, some, List, [], ◌∷◌, ◌++◌, if◌then◌else◌, ◌==◌, nat_eq, list_eq,
  Result, ok, err,
}
use gomaasapi.Strings.{Text, codes}
use gomaasapi.Params.{Values}
use gomaasapi.Url.{ensure_trailing_slash}
use gomaasapi.Value.{Value, str, obj, Members, end, member}
use gomaasapi.Errors.{other_error}
use gomaasapi.Http.{Platform, Url, path_url, World}
use gomaasapi.Http.Dispatch.{Client, Reply}
use gomaasapi.Http.Requests.{get_url, client_get, client_post, client_put, client_delete}
use gomaasapi.Object.{
  JsonObject, Fields, no_fields, field, object, nothing, fields, resource_uri, maasify, get_string,
  get_map, marshal_fields, parse,
}

module _ (P : Platform) where
  open P use {Err}

  -- MAASObject
  pub record MaasObject : Type 0 where
    pub values : Fields P.Float
    pub client : Option Client
    pub uri : Url

  -- `attrs[key]`
  unfoldable pub lookup : Text → Fields P.Float → Option (JsonObject P.Float)
  lookup key no_fields = none
  lookup key (field name v m) = if name == key then some v else lookup key m

  -- The entry for the URI, read as a URL. Where it is no string, its text is empty.
  resource_url : Result Err Text → Result Err Url
  resource_url (err e) = err (P.errors.new (other_error (codes "invalid resource_uri: ")))
  resource_url (ok uri) = elim (P.parse_url uri) [
    | ok url ↦ ok url
    | err e ↦
        err
          (P.errors.new (other_error (codes "resource_uri does not contain a valid URL: " ++ uri)))
  ]

  -- extractURI
  unfoldable pub extract_uri : Fields P.Float → Result Err Url
  unfolding lookup resource_url
  extract_uri attrs = elim (lookup resource_uri attrs) [
    | none ↦ err (P.errors.new (other_error (codes "not a MAAS object: no 'resource_uri' key")))
    | some entry ↦ resource_url (get_string P entry)
  ]

  abbrev pub client_of : JsonObject P.Float → Option Client
  client_of (object value bytes client is_null) = client

  -- GetMAASObject
  unfoldable pub get_maas_object : JsonObject P.Float → Result Err MaasObject
  unfolding extract_uri
  get_maas_object o = elim (get_map P o) [
    | err e ↦ err e
    | ok attrs ↦ elim (extract_uri attrs) [
      | err e ↦ err e
      | ok uri ↦ ok (record { values = attrs; client = client_of o; uri = uri })
    ]
  ]

  unpanicked : Result Err MaasObject → Option MaasObject
  unpanicked (ok o) = some o
  unpanicked (err e) = none

  -- newJSONMAASObject
  unfoldable pub new_json_maas_object : Members P.Float → Option Client → Option MaasObject
  unfolding unpanicked
  new_json_maas_object jmap client = elim (maasify client (obj jmap)) [
    | none ↦ none
    | some o ↦ unpanicked (get_maas_object o)
  ]

  -- The value that MarshalJSON writes.
  marshal_maas : MaasObject → Value P.Float
  marshal_maas o = obj (marshal_fields o.values)

  or_zero : Option (JsonObject P.Float) → JsonObject P.Float
  or_zero (some v) = v
  or_zero none = object nothing none none false

  -- GetField; a missing field is the zero JSONObject.
  unfoldable pub get_field : Text → MaasObject → Result Err Text
  unfolding or_zero
  get_field name o = get_string P (or_zero (lookup name o.values))

  parsed_url : Result Err Url → Option Url
  parsed_url (ok url) = some url
  parsed_url (err e) = none

  -- URI
  unfoldable pub maas_uri : MaasObject → Option Url
  unfolding parsed_url
  maas_uri o = parsed_url (P.parse_url (P.url_string o.uri))

  -- The client and the URI of a request; a request by the zero client panics.
  target : Option Client → Option Url → Option (Client × Url)
  target (some client) (some uri) = some (client, uri)
  target _ _ = none

  -- URL
  maas_url : MaasObject → Option Url
  maas_url o = Option.map (λ (client, uri). get_url P client uri) (target o.client (maas_uri o))

  -- The URI below another: resolved, and with a slash at its end.
  unfoldable pub sub_uri : Text → Url → Url
  sub_uri name uri =
      let resolved = P.resolve_reference uri (path_url name) in
      record resolved { path = ensure_trailing_slash resolved.path }

  -- GetSubObject
  unfoldable pub get_sub_object : Text → MaasObject → Option MaasObject
  unfolding sub_uri new_json_maas_object
  get_sub_object name o = elim (maas_uri o) [
    | none ↦ none
    | some uri ↦
        new_json_maas_object (member resource_uri (str (P.url_string (sub_uri name uri))) end)
          o.client
  ]

  -- NewMAAS, of maas.go: the object at the URL of the client. `none` is a panic.
  unfoldable pub new_maas : Client → Option MaasObject
  unfolding new_json_maas_object
  new_maas client =
      new_json_maas_object (member resource_uri (str (P.url_string client.api_url)) end)
        (some client)

  bytes_of : Option Text → Text
  bytes_of none = []
  bytes_of (some bytes) = bytes

  -- An answer is parsed, unless the request failed. The body of a success is not nil.
  parsed : Option Client → Reply P → Option (Result Err (JsonObject P.Float))
  unfolding bytes_of
  parsed client reply = elim reply.error [
    | some e ↦ some (err e)
    | none ↦ parse P client (bytes_of reply.body)
  ]

  as_maas_object : Result Err (JsonObject P.Float) → Result Err MaasObject
  as_maas_object (err e) = err e
  as_maas_object (ok o) = get_maas_object o

  module _ (o : MaasObject) where
    -- Get
    unfoldable pub maas_get : World P → Option (Result Err MaasObject × World P)
    unfolding parsed as_maas_object target
    maas_get w = elim (target o.client (maas_uri o)) [
      | none ↦ none
      | some (client, uri) ↦
          let (reply, _, w') = client_get P client uri [] (some []) w in
          Option.map (λ r. (as_maas_object r, w')) (parsed o.client reply)
    ]

    -- CallPostFiles
    unfoldable pub call_post_files :
        Text
        → Values
        → Option (List (Text × Text))
        → World P
        → Option (Result Err (JsonObject P.Float) × World P)
    unfolding parsed target
    call_post_files operation params files w = elim (target o.client (maas_uri o)) [
      | none ↦ none
      | some (client, uri) ↦
          let (reply, _, w') = client_post P client uri operation params files w in
          Option.map (λ r. (r, w')) (parsed o.client reply)
    ]

    -- CallPost, and Post, which names no operation
    call_post : Text → Values → World P → Option (Result Err (JsonObject P.Float) × World P)
    call_post operation params = call_post_files operation params none

    maas_post : Values → World P → Option (Result Err (JsonObject P.Float) × World P)
    maas_post params = call_post_files [] params none

    -- Update
    unfoldable pub maas_update : Values → World P → Option (Result Err MaasObject × World P)
    unfolding parsed as_maas_object target
    maas_update params w = elim (target o.client (maas_uri o)) [
      | none ↦ none
      | some (client, uri) ↦
          let (reply, w') = client_put P client uri params w in
          Option.map (λ r. (as_maas_object r, w')) (parsed o.client reply)
    ]

    -- Delete
    unfoldable pub maas_delete : World P → Option (Option Err × World P)
    unfolding target
    maas_delete w = elim (target o.client (maas_uri o)) [
      | none ↦ none
      | some (client, uri) ↦ some (client_delete P client uri w)
    ]

    -- CallGet. The map of parameters is the caller's, so it is returned as it is then.
    unfoldable pub call_get :
        Text
        → Option Values
        → World P
        → Option (Result Err (JsonObject P.Float) × Option Values × World P)
    unfolding parsed target
    call_get operation params w = elim (target o.client (maas_uri o)) [
      | none ↦ none
      | some (client, uri) ↦
          let (reply, params', w') = client_get P client uri operation params w in
          Option.map (λ r. (r, params', w')) (parsed o.client reply)
    ]
