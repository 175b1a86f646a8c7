-- ===== src/Files/Stored.antt =====
-- file.go: the files that the server holds, how they are read from answers, and their operations;
-- `Files` and `GetFile` of controller.go. The URI of a file that `url.ParseRequestURI` of Go reads,
-- and base64, are parameters.
use gomaasapi.Prelude.{List, [], nat_eq, list_eq, Result, ok}
use gomaasapi.Strings.{Text, codes}
use gomaasapi.Errors.{new_unexpected_error}
use gomaasapi.Versions.{Version}
use gomaasapi.Value.{Value, str, obj, Members}
use gomaasapi.Http.{Platform, Url}
use gomaasapi.Http.Requests.{get_url}
use gomaasapi.Schema.{Juju, string, field_map, FieldList, no_fields, need, or_default}
use gomaasapi.Reading.{
  ◌>>=◌, rewrap, typed, at, Read, to_read, assert_string, assert_map, only_two_dot_oh, checked,
  select_and_read_all, select_and_read,
}
use gomaasapi.Controller.{Controller}

-- file, but for its pointer to the controller
pub record File : Type 0 where
  pub resource_uri : Text
  pub filename : Text
  pub anonymous_uri : Url
  pub content : Text

module _ (P : Platform) (J : Juju P) (parse_request_uri : Text → Result P.Err Url) where
  unfoldable pub file_fields : FieldList P.Float
  file_fields = need (codes "resource_uri") string (
      need (codes "filename") string (
        need (codes "anon_resource_uri") string
          (or_default (codes "content") (str []) string no_fields)))

  -- file_2_0
  unfoldable pub file_2_0 : Members P.Float → Read P File
  unfolding file_fields
  file_2_0 source = do
    coerced ←
        checked P J typed (codes "file 2.0 schema check failed") (field_map file_fields)
          (obj source)
    valid ← assert_map P coerced
    address ← assert_string P (at (codes "anon_resource_uri") valid)
    anonymous_uri ← rewrap (new_unexpected_error P.errors) (to_read P (parse_request_uri address))
    resource_uri ← assert_string P (at (codes "resource_uri") valid)
    filename ← assert_string P (at (codes "filename") valid)
    content ← assert_string P (at (codes "content") valid)
    ok (record {
      resource_uri = resource_uri;
      filename = filename;
      anonymous_uri = anonymous_uri;
      content = content;
    })

  -- readFiles
  unfoldable pub read_files : Version → Value P.Float → Read P (List File)
  read_files = select_and_read_all P J typed (codes "file") (only_two_dot_oh P file_2_0)

  -- readFile
  unfoldable pub read_file : Version → Value P.Float → Read P File
  read_file = select_and_read P J typed (codes "file") (only_two_dot_oh P file_2_0)

  -- AnonymousURL
  anonymous_url : Controller → File → Text
  anonymous_url c f = P.url_string (get_url P c.client f.anonymous_uri)
