-- ===== src/Tests/Objects.antt =====
-- JSON values, and input that is none.
use gomaasapi.Prelude.{
  ◌∷◌, list_eq, nat_eq, [], ℕ, ◌≡◌, refl, ◌↔◌, true, false, none, some, ok, err, pos,
}
use gomaasapi.Strings.{codes}
use gomaasapi.Errors.{syntax_error}
use gomaasapi.Value.{Value, null, str, num, bool, arr, obj, end, nil}
use gomaasapi.Object.{
  JsonObject, Fields, Items, object, parse, marshal, marshal_fields, marshal_items, is_nil,
  get_string, get_float64, get_bool, get_map, get_array, get_bytes, text,
}
use gomaasapi.Object.{fields, field, no_fields, resource_uri}
use gomaasapi.Object.Maas.{MaasObject, get_maas_object, get_sub_object, get_field}
use gomaasapi.Object.Maas.Laws.{below, HasUri, get_maas_object_iff, get_sub_object_lem}
use gomaasapi.Http.{path_url}
use gomaasapi.Object.Laws.{IsJson, getters_iff, parse_json}
use gomaasapi.Url.{ensure_trailing_slash}
use gomaasapi.Strings.{has_suffix}
use gomaasapi.Tests.Bench.{query_text, parse_value, bench, client}

abbrev greeting : JsonObject ℕ
greeting = object (text (codes "hi")) none none false

getters_iff_example :
    ((get_string bench greeting ≡ ok (codes "hi")) ↔ (marshal greeting ≡ str (codes "hi")))
    × ((get_float64 bench greeting ≡ ok 1) ↔ (marshal greeting ≡ num 1))
    × ((get_bool bench greeting ≡ ok true) ↔ (marshal greeting ≡ bool true))
    × (((r : Fields ℕ) × (get_map bench greeting ≡ ok r) × (marshal_fields r ≡ end))
        ↔ (marshal greeting ≡ obj end))
    × (((r : Items ℕ) × (get_array bench greeting ≡ ok r) × (marshal_items r ≡ nil))
        ↔ (marshal greeting ≡ arr nil))
getters_iff_example = getters_iff bench greeting (codes "hi") 1 true end nil

abbrev empty_list : Value ℕ
empty_list = arr nil

list_parses : parse_value (codes "[]") ≡ ok (arr nil)
unfolding parse_value codes list_eq nat_eq
list_parses = refl

parse_json_example :
    (o : JsonObject ℕ) × (parse bench (some client) (codes "[]") ≡ some (ok o))
    × (marshal o ≡ arr nil)
    × (get_bytes bench o ≡ ok (codes "[]"))
    × ((is_nil o ≡ true) ↔ (empty_list ≡ null))
unfolding IsJson
parse_json_example = parse_json bench (some client) (codes "[]") (arr nil) list_parses tt

raw_fails : parse_value (codes "<") ≡ err (syntax_error (pos 1) (codes "invalid character"))
unfolding parse_value codes list_eq nat_eq
raw_fails = refl

abbrev maas_map : JsonObject ℕ
maas_map =
    object (fields (field resource_uri (object (text (codes "/x/")) none none false) no_fields))
      none (some client) false

abbrev maas_object : MaasObject bench
maas_object = record {
  values = field resource_uri (object (text (codes "/x/")) none none false) no_fields;
  client = some client;
  uri = path_url (codes "/x/");
}

get_maas_object_iff_example : (get_maas_object bench maas_map ≡ ok maas_object) ↔ (
    (get_map bench maas_map ≡ ok maas_object.values)
    × HasUri bench maas_object.values maas_object.uri
    × (some client ≡ some client))
get_maas_object_iff_example = get_maas_object_iff bench maas_map maas_object

abbrev slash_object : MaasObject bench
slash_object = record { values = no_fields; client = some client; uri = path_url (b'/' ∷ []) }

slash_parses : bench.parse_url (bench.url_string slash_object.uri) ≡ ok slash_object.uri
unfolding query_text list_eq
slash_parses = refl

sub_parses :
    bench.parse_url (bench.url_string (below bench (b'x' ∷ []) slash_object.uri))
    ≡ ok (below bench (b'x' ∷ []) slash_object.uri)
unfolding query_text list_eq ensure_trailing_slash has_suffix nat_eq
sub_parses = refl

get_sub_object_lem_example :
    (s : MaasObject bench) × (get_sub_object bench (b'x' ∷ []) slash_object ≡ some s)
    × (s.uri ≡ below bench (b'x' ∷ []) slash_object.uri)
    × (s.client ≡ some client)
    × (get_field bench resource_uri s
        ≡ ok (bench.url_string (below bench (b'x' ∷ []) slash_object.uri)))
get_sub_object_lem_example =
    get_sub_object_lem bench (b'x' ∷ []) slash_object slash_parses sub_parses
