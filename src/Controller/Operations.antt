-- ===== src/Controller/Operations.antt =====
-- Operations of controller.go that read no object from the answer: releasing machines, adding a
-- file, the check of the credentials, and the deletions of file.go, device.go and interface.go; and
-- the tests on versions and owner data that other operations make.
pub mod Failures
use gomaasapi.Prelude.{
  ℕ, Bool, true, false, ◌&&◌, ◌||◌, Option, none, some, List, [], ◌∷◌, ◌++◌, if◌then◌else◌, ◌==◌,
  nat_eq, list_eq, int_eq, ℤ, pos, Result, ok, err, Action, ◌>>=◌, return, throw, lift, catch_error,
  contains,
}
use gomaasapi.Strings.{Text, codes}
use gomaasapi.Params.{Values, new_url_params, maybe_add, maybe_add_many}
use gomaasapi.Errors.{ErrorValue, ServerError, server_error, syntax_error, get_server_error}
use gomaasapi.Errors.Translate.{
  Cases, no_match, bad_request, permission, cannot_complete, translate,
}
use gomaasapi.Value.{Value}
use gomaasapi.Http.{Platform, World}
use gomaasapi.Controller.{Controller, Api, post, post_file, delete, get_op}
use gomaasapi.Files.{AddFileArgs, add_file_args_validate, file_content}

-- ReleaseMachinesArgs
pub record ReleaseMachinesArgs : Type 0 where
  pub system_ids : List Text
  pub comment : Text

-- The cases of the operations' `switch` statements.
abbrev pub release_cases : Cases
release_cases = (400, bad_request) ∷ (403, permission) ∷ (409, cannot_complete) ∷ []

abbrev pub add_file_cases : Cases
add_file_cases = (400, bad_request) ∷ []

abbrev pub creds_cases : Cases
creds_cases = (401, permission) ∷ []

abbrev pub delete_cases : Cases
delete_cases = (404, no_match) ∷ (403, permission) ∷ []

-- supportedAPIVersions, and supportedVersion
abbrev pub supported_api_versions : List Text
supported_api_versions = codes "2.0" ∷ []

unfoldable pub supported_version : Text → Bool
supported_version value = contains supported_api_versions value

-- A Go map from strings to strings: its value at a key is the empty string where it has none.
unfoldable pub map_get : Text → List (Text × Text) → Text
map_get key [] = []
map_get key ((k, v) ∷ m) = if k == key then v else map_get key m

-- ownerDataMatches
unfoldable pub owner_data_matches : List (Text × Text) → List (Text × Text) → Bool
unfolding map_get
owner_data_matches owner_data [] = true
owner_data_matches owner_data ((key, value) ∷ filter) =
    if map_get key owner_data == value then owner_data_matches owner_data filter else false

module _ (P : Platform) where
  open P use {Err}

  -- The message of the workaround for MAAS 1.9.4.
  abbrev html_message : Text
  html_message = codes "invalid character '<' looking for beginning of value"

  unsupported_value : ErrorValue → Bool
  unsupported_value (server_error s) = s.status_code == 404 || s.status_code == 410
  unsupported_value (syntax_error offset message) = offset == pos 1 && message == html_message
  unsupported_value _ = false

  -- indicatesUnsupportedVersion
  unfoldable pub indicates_unsupported_version : Option Err → Bool
  unfolding unsupported_value
  indicates_unsupported_version none = false
  indicates_unsupported_version (some e) = unsupported_value (P.errors.cause e)

  module _ (c : Controller) where
    -- The parameters of the request.
    unfoldable pub release_params : ReleaseMachinesArgs → Values
    release_params args =
        maybe_add (codes "comment") args.comment
          (maybe_add_many (codes "machines") args.system_ids new_url_params)

    -- ReleaseMachines
    unfoldable pub release_machines : ReleaseMachinesArgs → Api P (Unit {0})
    unfolding release_params
    release_machines args = do
      _ ←
          catch_error (translate P.errors release_cases)
            (post P c (codes "machines") (codes "release") (release_params args))
      return tt

    -- checkCreds
    unfoldable pub check_creds : Api P (Unit {0})
    check_creds = do
      _ ← catch_error (translate P.errors creds_cases) (get_op P c (codes "users") (codes "whoami"))
      return tt

    validated : Option Err → Result Err (Unit {0})
    validated none = ok tt
    validated (some e) = err (P.errors.trace e)

    -- AddFile
    unfoldable pub add_file : AddFileArgs Err → Api P (Unit {0})
    unfolding validated
    add_file args = do
      _ ← lift (validated (add_file_args_validate P.errors P.quote args))
      content ← lift (file_content P.errors args)
      _ ←
          catch_error (translate P.errors add_file_cases)
            (post_file P c (codes "files") [] ((codes "filename", args.filename ∷ []) ∷ []) content)
      return tt

    -- Delete of a file, a device or an interface, by its resource URI
    unfoldable pub delete_resource : Text → Api P (Unit {0})
    delete_resource resource_uri =
        catch_error (translate P.errors delete_cases) (delete P c resource_uri)
