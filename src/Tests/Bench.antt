-- ===== src/Tests/Bench.antt =====
-- A platform to run the program on: errors without messages of their own, a server with a script of
-- answers, and a clock and random numbers that stand still.
use mathlib.Core.List.Perm
use gomaasapi.Prelude.{
  ℕ, refl, none, List, [], ◌∷◌, ◌++◌, ◌==◌, nat_eq, list_eq, if◌then◌else◌, Result, ok, err, pos,
  contains, arith,
}
use gomaasapi.Strings.{Text, codes, join}
use gomaasapi.Params.{Values}
use gomaasapi.Errors.{ErrorValue, JujuErrors, syntax_error, other_error}
use gomaasapi.Value.{Value, Members, null, str, obj, arr, end, member, nil}
use gomaasapi.Http.{Platform, path_url, Response, World}
use gomaasapi.Strings.Decimal.{itoa}
use gomaasapi.Http.Sign.{plain_text_signer}
use gomaasapi.Http.Dispatch.{Client}
use gomaasapi.Http.Requests.{key_token}
use gomaasapi.Allocate.{StringSet}

-- An error is its cause.
abbrev pub plain_errors : JujuErrors
plain_errors = record {
  Err = ErrorValue;
  new = λ v. v;
  trace = λ e. e;
  annotate = λ e message. e;
  wrap = λ e f. f;
  cause = λ e. e;
  error_text = λ e. [];
  cause-new = λ v. refl;
  cause-trace = λ e. refl;
  cause-annotate = λ e message. refl;
  cause-wrap = λ e f. refl;
  formatted = λ s. s;
  formatted-plain = λ s h. refl;
}

-- The answers still to come.
abbrev pub Script : Type 0
Script = List (Result ErrorValue (Response ErrorValue))

abbrev pub answer : Script → Result ErrorValue (Response ErrorValue) × Script
answer [] = (err (other_error (codes "EOF")), [])
answer (r ∷ script) = (r, script)

-- A zone, and a device that has no interface.
abbrev pub place : Members ℕ
place = member (codes "name") (str (codes "default")) (
    member (codes "description") (str [])
      (member (codes "resource_uri") (str (codes "/zones/default/")) end))

abbrev pub bare_device : Members ℕ
bare_device = member (codes "resource_uri") (str (codes "/devices/1/")) (
    member (codes "system_id") (str (codes "1")) (
      member (codes "hostname") (str (codes "child")) (
        member (codes "fqdn") (str (codes "child.maas")) (
          member (codes "parent") null (
            member (codes "owner") null (
              member (codes "ip_addresses") (arr nil) (
                member (codes "interface_set") (arr nil)
                  (member (codes "zone") (obj place) (member (codes "pool") null end)))))))))

-- Four values are known, the last by a name in place of its text; all other input is no JSON.
unfoldable pub parse_value : Text → Result ErrorValue (Value ℕ)
parse_value s =
    if s == codes "null"
    then ok null
    else if s == codes "[]"
    then ok (arr nil)
    else if s == codes "{}"
    then ok (obj end)
    else if s == codes "bare device"
    then ok (obj bare_device)
    else err (syntax_error (pos 1) (codes "invalid character"))

unfoldable pub encode_values : Values → Text
encode_values [] = []
encode_values ((name, values) ∷ p) =
    name ++ codes "=" ++ join values (codes ",") ++ codes "&" ++ encode_values p

unfoldable pub query_text : Text → Text
query_text query = if query == [] then [] else codes "?" ++ query

abbrev pub bench : Platform
bench = record {
  errors = plain_errors;
  Float = ℕ;
  Net = Script;
  do_request = λ request script. answer script;
  body_left = λ request script. [];
  rand_read = λ script.
      (ok (7 ∷ 255 ∷ 0 ∷ 1 ∷ 2 ∷ 3 ∷ 4 ∷ 5 ∷ 6 ∷ 8 ∷ 9 ∷ 10 ∷ 11 ∷ 12 ∷ 13 ∷ 14 ∷ []), script);
  unix_time = λ script. (pos 1500000000, script);
  map_order = λ m script. (m, script);
  map_order-perm = λ m script. Perm.refl m;
  query_escape = λ s. s;
  encode = encode_values;
  resolve_reference = λ base uri. record base { path = base.path ++ uri.path };
  url_string = λ u. u.origin ++ u.path ++ query_text u.raw_query;
  parse_url = λ s. ok (path_url s);
  quote = λ s. s;
  new_request_error = λ method url. none;
  unmarshal = parse_value;
  Writer = Text;
  new_writer = λ script. ([], script);
  create_form_file = λ name file writer. ok writer;
  create_form_field = λ name writer. ok writer;
  write = λ content writer. writer ++ content;
  close_writer = λ writer. writer;
  buffer = λ writer. writer;
  form_data_content_type = λ writer. codes "multipart/form-data";
}

abbrev pub world : Script → World bench
world script = record { net = script; trace = []; request_number = pos 0 }

-- Sets of strings as lists.
abbrev pub list_set : StringSet
list_set = record {
  Strings = List Text;
  new_strings = [];
  add = λ s x. s ∷ x;
  contains = λ s x. contains x s;
  contains-new_strings = λ s. refl;
  contains-add = λ s t x. ground arith;
}

-- A client with a key, and answers of the server.
abbrev pub client : Client
client = record {
  api_url = path_url (codes "/MAAS/api/2.0/");
  signer =
      plain_text_signer (key_token bench (codes "c") (codes "t") (codes "s")) (codes "MAAS API");
}

abbrev pub answered : ℕ → List (Text × List Text) → Text → Result ErrorValue (Response ErrorValue)
answered status header body =
    ok
      (record { status = itoa (pos status); status_code = status; header = header; body = ok body })

abbrev pub busy : Result ErrorValue (Response ErrorValue)
busy = answered 503 ((codes "Retry-After", codes "7" ∷ []) ∷ []) (codes "wait")
