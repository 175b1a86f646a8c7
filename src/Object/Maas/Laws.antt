-- ===== src/Object/Maas/Laws.antt =====
-- What makes a MAAS object, and the objects below one.
use mathlib.Core.Path.{subst}
use gomaasapi.Prelude.{
  [], ◌∷◌, ◌++◌, if◌then◌else◌, ◌≡◌, refl, ap, ◌↔◌, false, Option, none, some, ok, arith, ==_refl,
  nat_eq, list_eq,
}
use gomaasapi.Strings.{Text, has_suffix}
use gomaasapi.Url.{ensure_trailing_slash}
use gomaasapi.Value.{Members, obj, str, end, member}
use gomaasapi.Http.{Platform, Url, path_url}
use gomaasapi.Http.Dispatch.{Client}
use gomaasapi.Object.{
  JsonObject, Fields, object, fields, resource_uri, no_fields, field, plain, text, maasify,
  get_string, get_map,
}
use gomaasapi.Object.Maas.{
  MaasObject, lookup, resource_url, extract_uri, client_of, get_maas_object, new_json_maas_object,
  unpanicked, get_field, maas_uri, sub_uri, get_sub_object, new_maas,
}

module _ (P : Platform) where
  open P use {Err}

  -- The URI of the attributes: their `resource_uri` is a string, and this text a URL.
  pub record HasUri (attrs : Fields P.Float) (uri : Url) : Type 0 where
    pub entry : JsonObject P.Float
    pub text : Text
    pub found : lookup P resource_uri attrs ≡ some entry
    pub is_text : get_string P entry ≡ ok text
    pub parses : P.parse_url text ≡ ok uri

  extract_uri-HasUri :
      (attrs : Fields P.Float) (uri : Url) → (extract_uri P attrs ≡ ok uri) ↔ HasUri attrs uri
  unfolding extract_uri resource_url
  extract_uri-HasUri attrs uri = ground arith

  -- A MAAS object is made of exactly the JSON objects that are maps whose `resource_uri` is a string
  -- that parses as a URL; it keeps the map, the client and this URL.
  pub get_maas_object_iff :
      (o : JsonObject P.Float) (m : MaasObject P)
      → (get_maas_object P o ≡ ok m)
        ↔ ((get_map P o ≡ ok m.values) × HasUri m.values m.uri × (client_of P o ≡ m.client))
  unfolding get_maas_object
  get_maas_object_iff o m = ground (arith, extract_uri-HasUri m.values m.uri)

  -- The attributes of an object below another: its URI alone.
  abbrev uri_alone : Text → Fields P.Float
  uri_alone t = field resource_uri (plain (text t)) no_fields

  lookup-uri_alone : (t : Text) → lookup P resource_uri (uri_alone t) ≡ some (plain (text t))
  unfolding lookup
  lookup-uri_alone t = rw (==_refl resource_uri)

  -- A JSON map whose attributes have a URI is made into an object of these.
  pub new_json_maas_object-HasUri :
      (jmap : Members P.Float) (m : MaasObject P)
      → maasify m.client (obj jmap) ≡ some (object (fields m.values) none m.client false)
      → HasUri m.values m.uri
      → new_json_maas_object P jmap m.client ≡ some m
  unfolding new_json_maas_object get_map
  new_json_maas_object-HasUri jmap m e h =
      let made = object (fields m.values) none m.client false in
      rw (new_json_maas_object, e)
        (ap (unpanicked P) ((get_maas_object_iff made m).1 (refl, h, refl)))

  new_json_maas_object-uri :
      (t : Text) (uri : Url) (client : Option Client)
      → P.parse_url t ≡ ok uri
      → new_json_maas_object P (member resource_uri (str t) end) client
        ≡ some (record { values = uri_alone t; client = client; uri = uri })
  unfolding maasify get_string
  new_json_maas_object-uri t uri client k =
      new_json_maas_object-HasUri (member resource_uri (str t) end)
        (record { values = uri_alone t; client = client; uri = uri }) refl
        (record {
          entry = plain (text t);
          text = t;
          found = lookup-uri_alone t;
          is_text = refl;
          parses = k;
        })

  get_field-uri :
      (t : Text) (uri : Url) (client : Option Client)
      → get_field P resource_uri (record { values = uri_alone t; client = client; uri = uri })
        ≡ ok t
  unfolding get_field lookup get_string
  get_field-uri t uri client = rw (==_refl resource_uri)

  -- The URI below another: the name resolved against it, with a slash at the end of its path
  abbrev pub below : Text → Url → Url
  below name uri =
      let resolved = P.resolve_reference uri (path_url name) in
      record {
        origin = resolved.origin;
        path =
            if has_suffix resolved.path (b'/' ∷ [])
            then resolved.path
            else resolved.path ++ b'/' ∷ [];
        raw_query = resolved.raw_query;
      }

  sub_uri-below : (name : Text) (uri : Url) → sub_uri P name uri ≡ below name uri
  unfolding sub_uri ensure_trailing_slash
  sub_uri-below name uri = refl

  get_sub_object-sub_uri :
      (name : Text) (o : MaasObject P)
      → P.parse_url (P.url_string o.uri) ≡ ok o.uri
      → P.parse_url (P.url_string (sub_uri P name o.uri)) ≡ ok (sub_uri P name o.uri)
      → (s : MaasObject P) × (get_sub_object P name o ≡ some s)
        × (s.uri ≡ sub_uri P name o.uri)
        × (s.client ≡ o.client)
        × (get_field P resource_uri s ≡ ok (P.url_string (sub_uri P name o.uri)))
  unfolding get_sub_object maas_uri
  get_sub_object-sub_uri name o h k =
      let t = P.url_string (sub_uri P name o.uri) in
      (
        record { values = uri_alone t; client = o.client; uri = sub_uri P name o.uri },
        rw (get_sub_object, h) (new_json_maas_object-uri t (sub_uri P name o.uri) o.client k),
        refl,
        refl,
        get_field-uri t (sub_uri P name o.uri) o.client,
      )

  -- Where the URIs of an object and of the one below it read back as themselves, `GetSubObject` gives
  -- an object of the same client whose URI is the name resolved against that of the object, with one
  -- slash more where its path does not end in one; its field `resource_uri` holds that URI.
  pub get_sub_object_lem :
      (name : Text) (o : MaasObject P)
      → P.parse_url (P.url_string o.uri) ≡ ok o.uri
      → P.parse_url (P.url_string (below name o.uri)) ≡ ok (below name o.uri)
      → (s : MaasObject P) × (get_sub_object P name o ≡ some s)
        × (s.uri ≡ below name o.uri)
        × (s.client ≡ o.client)
        × (get_field P resource_uri s ≡ ok (P.url_string (below name o.uri)))
  get_sub_object_lem name o h =
      subst
        (λ u.
          P.parse_url (P.url_string u) ≡ ok u
          → (s : MaasObject P) × (get_sub_object P name o ≡ some s)
            × (s.uri ≡ u)
            × (s.client ≡ o.client)
            × (get_field P resource_uri s ≡ ok (P.url_string u)))
        (sub_uri-below name o.uri) (get_sub_object-sub_uri name o h)

  -- Where the URL of a client reads back as itself, `NewMAAS` gives an object of this client at it,
  -- and the objects below it are found below this URL.
  new_maas_lem :
      (client : Client) (name : Text)
      → P.parse_url (P.url_string client.api_url) ≡ ok client.api_url
      → P.parse_url (P.url_string (sub_uri P name client.api_url))
        ≡ ok (sub_uri P name client.api_url)
      → (o : MaasObject P) × (new_maas P client ≡ some o)
        × (o.uri ≡ client.api_url)
        × (o.client ≡ some client)
        × ((s : MaasObject P) × (get_sub_object P name o ≡ some s)
            × (s.uri ≡ sub_uri P name client.api_url)
            × (s.client ≡ some client))
  unfolding new_maas
  new_maas_lem client name h k =
      let o : MaasObject P = record {
        values = uri_alone (P.url_string client.api_url);
        client = some client;
        uri = client.api_url;
      } in
      let (s, e, u, c, _) = get_sub_object-sub_uri name o h k in
      (
        o,
        new_json_maas_object-uri (P.url_string client.api_url) client.api_url (some client) h,
        refl,
        refl,
        (s, e, u, c),
      )
