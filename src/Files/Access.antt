-- ===== src/Files/Access.antt =====
-- `ReadAll` of file.go, and `Files` and `GetFile` of controller.go.
use gomaasapi.Prelude.{
  List, [], ◌∷◌, ◌++◌, if◌then◌else◌, ◌==◌, nat_eq, list_eq, some, Result, ok, err, ◌>>=◌,
  catch_error,
}
use gomaasapi.Strings.{Text, codes}
use gomaasapi.Params.{new_url_params, maybe_add, add}
use gomaasapi.Errors.{new_unexpected_error, not_valid}
use gomaasapi.Errors.Translate.{Cases, no_match, permission, translate}
use gomaasapi.Http.{Platform, Url}
use gomaasapi.Schema.{Juju}
use gomaasapi.Reading.{returned}
use gomaasapi.Controller.{Controller, Api, get, get_query, get_raw}
use gomaasapi.Controller.Answers.{Reading, failing, reading}
use gomaasapi.Files.Stored.{File, read_files, read_file}

-- The cases of the operations' `switch` statements.
abbrev pub read_all_cases : Cases
read_all_cases = (404, no_match) ∷ (403, permission) ∷ []

abbrev pub get_file_cases : Cases
get_file_cases = (404, no_match) ∷ []

module _ (P : Platform) (c : Controller) where
  open P use {Err}

  -- readFromServer
  unfoldable pub read_from_server : File → Api P Text
  read_from_server f =
      catch_error (translate P.errors read_all_cases)
        (get_raw P c (codes "files") (codes "get") (some (add (codes "filename") f.filename [])))

  decoded : Result Err Text → Result Err Text
  decoded (ok bytes) = ok bytes
  decoded (err e) = err (new_unexpected_error P.errors e)

  -- ReadAll; base64.StdEncoding.DecodeString is a parameter.
  unfoldable pub read_all : (Text → Result Err Text) → File → Api P Text
  unfolding decoded read_from_server
  read_all decode_string f w =
      if f.content == [] then read_from_server f w else (decoded (decode_string f.content), w)

  module _ (J : Juju P) (parse_request_uri : Text → Result Err Url) where
    -- Files
    unfoldable pub files : Text → Reading P (List File)
    files prefix = do
      source ←
          failing P (new_unexpected_error P.errors)
            (get_query P c (codes "files") (maybe_add (codes "prefix") prefix new_url_params))
      reading P (read_files P J parse_request_uri c.api_version source)

    found_file : Text → Reading P File
    found_file filename = do
      source ← failing P (translate P.errors get_file_cases) (get P c (codes "files/" ++ filename))
      reading P (read_file P J parse_request_uri c.api_version source)

    -- GetFile
    unfoldable pub get_file : Text → Reading P File
    unfolding found_file
    get_file filename w =
        if filename == []
        then (err (returned (P.errors.new (not_valid (codes "missing filename")))), w)
        else found_file filename w
