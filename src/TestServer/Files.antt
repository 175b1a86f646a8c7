-- ===== src/TestServer/Files.antt =====
-- The handlers of `/files/` in testservice.go, on the files that the server holds. A panic is `none`.
-- A request has the path that was matched, its query and its multipart form, each `none` where it
-- does not parse.
pub mod Laws
use gomaasapi.Prelude.{
  ℕ, Bool, true, false, ◌&&◌, Option, none, some, List, [], ◌∷◌, ◌++◌, if◌then◌else◌, ◌==◌, nat_eq,
  list_eq, Result, ok, err,
}
use gomaasapi.Strings.{Text, codes, has_prefix}
use gomaasapi.Params.{Values, get}
use gomaasapi.Value.{str, end, member}
use gomaasapi.Http.{Platform, path_url}
use gomaasapi.Http.Dispatch.{Client}
use gomaasapi.Object.{Fields, no_fields, resource_uri}
use gomaasapi.Object.Maas.{MaasObject, get_field, new_json_maas_object}
use gomaasapi.TestServer.Store.{Store, find, store, remove}
use gomaasapi.TestServer.Nodes.{delete_field}

-- The path of a request: `/files/`, `/files/<filename>/`, or another.
pub data FileTarget : Type 0 where
  listing : FileTarget
  file_at : Text → FileTarget
  other : FileTarget

-- The values of the form, and its files by name: what reading each of them gives.
pub record Multipart (Err : Type 0) : Type 0 where
  pub form : Values
  pub uploads : List (Text × List (Result Err Text))

pub record FileRequest (Err : Type 0) : Type 0 where
  pub method : Text
  pub target : FileTarget
  pub query : Option Values
  pub multipart : Option (Multipart Err)

module _ (P : Platform) where
  open P use {Err}

  -- The fields of TestServer that the files need.
  pub record FileServer : Type 0 where
    pub files : Store (MaasObject P)
    pub client : Option Client
    pub version : Text

  pub data FileBody : Type 0 where
    empty : FileBody
    not_found : FileBody
    raw : Text → FileBody
    file : MaasObject P → FileBody
    listed : List (Fields P.Float) → FileBody
    internal : Err → FileBody

  pub record FileAnswer : Type 0 where
    pub status : ℕ
    pub body : FileBody

  abbrev pub file_answer : ℕ → FileBody → FileAnswer
  file_answer status body = record { status = status; body = body }

  -- getFilesEndpoint
  unfoldable pub get_files_endpoint : Text → Text
  get_files_endpoint version = codes "/api/" ++ version ++ codes "/files/"

  -- getFileURL
  unfoldable pub get_file_url : Text → Text → Text
  get_file_url version filename =
      P.url_string (path_url (get_files_endpoint version ++ filename ++ codes "/"))

  -- sort.Strings, and the two directions of base64.StdEncoding
  module _ (sort_strings : List Text → List Text) (encode : Text → Text)
      (decode : Text → Result Err Text) where
    -- NewFile
    unfoldable pub new_file : Text → Text → FileServer → Option (MaasObject P × FileServer)
    new_file filename content s =
        elim (new_json_maas_object P
          (member resource_uri (str (get_file_url s.version filename)) (
            member (codes "content") (str (encode content)) (
              member (codes "filename") (str filename) (
                member (codes "anon_resource_uri")
                  (str (
                    codes "/maas/1.0/files/?op=get_by_key&key="
                    ++ P.query_escape filename
                    ++ codes "_key"))
                  end))))
          s.client) [
            | none ↦ none
            | some o ↦ some (o, record s { files = store filename o s.files })
          ]

    -- The loop of listFilenames
    unfoldable pub with_prefix : Text → Store (MaasObject P) → List Text
    with_prefix prefix [] = []
    with_prefix prefix ((filename, o) ∷ files) =
        let rest = with_prefix prefix files in
        if has_prefix filename prefix then filename ∷ rest else rest

    -- listFilenames
    unfoldable pub list_filenames : Text → FileServer → List Text
    list_filenames prefix s = sort_strings (with_prefix prefix s.files)

    -- stripContent
    unfoldable pub strip_content : Fields P.Float → Fields P.Float
    strip_content original = delete_field (codes "content") original

    -- The attributes of a file in a listing; the map of no file is empty.
    listed_file : Option (MaasObject P) → Fields P.Float
    listed_file none = no_fields
    listed_file (some o) = strip_content o.values

    listed_files : List Text → FileServer → List (Fields P.Float)
    listed_files [] s = []
    listed_files (filename ∷ names) s = listed_file (find filename s.files) ∷ listed_files names s

    -- fileListingHandler
    unfoldable pub file_listing_handler : Values → FileServer → FileAnswer
    unfolding listed_file listed_files
    file_listing_handler query s =
        file_answer 200 (listed (listed_files (list_filenames (get (codes "prefix") query) s) s))

    file_found : Option (MaasObject P) → FileAnswer
    file_found none = file_answer 404 not_found
    file_found (some o) = file_answer 200 (file o)

    -- fileHandler
    unfoldable pub file_handler : Text → Text → FileServer → FileAnswer × FileServer
    unfolding file_found
    file_handler method filename s =
        if method == codes "DELETE"
        then (file_answer 200 empty, record s { files = remove filename s.files })
        else if method == codes "GET"
        then (file_found (find filename s.files), s)
        else (file_answer 404 not_found, s)

    decoded_content : Result Err Text → FileAnswer
    decoded_content (err e) = file_answer 500 (internal e)
    decoded_content (ok content) = file_answer 200 (raw content)

    content_of : Result Err Text → FileAnswer
    unfolding decoded_content
    content_of (err e) = file_answer 500 (internal e)
    content_of (ok base64_content) = decoded_content (decode base64_content)

    content_found : Option (MaasObject P) → FileAnswer
    unfolding content_of
    content_found none = file_answer 404 not_found
    content_found (some o) = content_of (get_field P (codes "content") o)

    -- getFileHandler
    unfoldable pub get_file_handler : Values → FileServer → FileAnswer
    unfolding content_found
    get_file_handler query s = content_found (find (get (codes "filename") query) s.files)

    added : Option (MaasObject P × FileServer) → Option (FileAnswer × FileServer)
    added none = none
    added (some (o, s)) = some (file_answer 200 empty, s)

    -- The one upload, which readMultipart reads
    uploaded :
        Text → List (Text × List (Result Err Text)) → FileServer → Option (FileAnswer × FileServer)
    unfolding added
    uploaded filename ((name, ok content ∷ more) ∷ []) s = added (new_file filename content s)
    uploaded filename uploads s = none

    -- addFileHandler
    unfoldable pub add_file_handler :
        Option (Multipart Err) → FileServer → Option (FileAnswer × FileServer)
    unfolding uploaded
    add_file_handler none s = none
    add_file_handler (some m) s =
        let filename = get (codes "filename") m.form in
        if filename == [] then none else uploaded filename m.uploads s

    -- The request is for the listing's path, with this method and operation.
    is_asked : Text → Text → Text → FileRequest Err → Bool
    is_asked op method asked r = asked == op && r.method == method && at_listing r.target
      where
        at_listing : FileTarget → Bool
        at_listing listing = true
        at_listing (file_at filename) = false
        at_listing other = false

    single : FileTarget → Text → FileServer → FileAnswer × FileServer
    single (file_at filename) method s = file_handler method filename s
    single listing method s = (file_answer 404 not_found, s)
    single other method s = (file_answer 404 not_found, s)

    -- filesHandler
    unfoldable pub files_handler : FileRequest Err → FileServer → Option (FileAnswer × FileServer)
    unfolding is_asked single
    files_handler r s = elim r.query [
      | none ↦ none
      | some query ↦
          let op = get (codes "op") query in
          if is_asked (codes "list") (codes "GET") op r
          then some (file_listing_handler query s, s)
          else if is_asked (codes "get") (codes "GET") op r
          then some (get_file_handler query s, s)
          else if is_asked (codes "add") (codes "POST") op r
          then add_file_handler r.multipart s
          else some (single r.target r.method s)
    ]
