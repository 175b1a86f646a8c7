-- ===== src/TestServer/Files/Laws.antt =====
-- What the test server gives of a file after it was added, or deleted.
use gomaasapi.Prelude.{
  ◌≡◌, refl, ap, false, none, some, List, [], ◌∷◌, ◌++◌, ◌==◌, nat_eq, list_eq, Result, ok,
}
use gomaasapi.Strings.{Text, codes}
use gomaasapi.Params.{Values, get, values_of, first_value}
use gomaasapi.Http.{Platform, Url}
use gomaasapi.Object.{Fields, resource_uri, no_fields, field, plain, text, maasify, get_string}
use gomaasapi.Object.Maas.{MaasObject, lookup, get_field}
use gomaasapi.Object.Maas.Laws.{new_json_maas_object-HasUri}
use gomaasapi.TestServer.Store.{
  store, remove, find-store_same, find-store_other, find-remove_same, find-remove_other,
}
use gomaasapi.TestServer.Files.{
  listing, file_at, FileRequest, FileServer, file_answer, empty, not_found, raw, get_file_url,
  new_file, file_handler, get_file_handler, add_file_handler, files_handler,
}

module _ (P : Platform) where
  open P use {Err}

  -- The query of a request for a file's content.
  abbrev pub asked : Text → Values
  asked filename = (codes "op", codes "get" ∷ []) ∷ (codes "filename", filename ∷ []) ∷ []

  abbrev pub getting : Text → FileRequest Err
  getting filename = record {
    method = codes "GET";
    target = listing;
    query = some (asked filename);
    multipart = none;
  }

  abbrev pub adding : Text → Text → Text → FileRequest Err
  adding filename name content = record {
    method = codes "POST";
    target = listing;
    query = some ((codes "op", codes "add" ∷ []) ∷ []);
    multipart = some (record {
      form = (codes "op", codes "add" ∷ []) ∷ (codes "filename", filename ∷ []) ∷ [];
      uploads = (name, ok content ∷ []) ∷ [];
    });
  }

  abbrev pub deleting : Text → FileRequest Err
  deleting filename = record {
    method = codes "DELETE";
    target = file_at filename;
    query = some [];
    multipart = none;
  }

  module _ (sort_strings : List Text → List Text) (encode : Text → Text)
      (decode : Text → Result Err Text) where
    abbrev file_fields : Text → Text → Text → Fields P.Float
    file_fields url filename content = field resource_uri (plain (text url)) (
        field (codes "content") (plain (text (encode content))) (
          field (codes "filename") (plain (text filename)) (
            field (codes "anon_resource_uri")
              (plain (
                text (
                  codes "/maas/1.0/files/?op=get_by_key&key="
                  ++ P.query_escape filename
                  ++ codes "_key")))
              no_fields)))

    abbrev file_of : Text → Text → Url → FileServer P → MaasObject P
    file_of filename content uri s = record {
      values = file_fields (get_file_url P s.version filename) filename content;
      client = s.client;
      uri = uri;
    }

    new_file-uri :
        (filename content : Text) (uri : Url) (s : FileServer P)
        → P.parse_url (get_file_url P s.version filename) ≡ ok uri
        → new_file P sort_strings encode decode filename content s
          ≡ some (
            file_of filename content uri s,
            record s { files = store filename (file_of filename content uri s) s.files },
          )
    unfolding new_file maasify lookup get_string list_eq codes nat_eq
    new_file-uri filename content uri s h =
        let o : MaasObject P = file_of filename content uri s in
        ap
          (λ made. elim made [
            | none ↦ none
            | some o ↦ some (o, record s { files = store filename o s.files })
          ])
          (new_json_maas_object-HasUri P _ o refl (record {
            entry = plain (text (get_file_url P s.version filename));
            text = get_file_url P s.version filename;
            found = refl;
            is_text = refl;
            parses = h;
          }))

    -- A file that is uploaded is given back with its content, and what is given of another file stays
    -- the same. Decoding undoes the encoding of the content, and the URL of the file parses.
    pub files_handler-adding :
        (filename name content other : Text) (uri : Url) (s : FileServer P)
        → (filename == []) ≡ false
        → (filename == other) ≡ false
        → P.parse_url (get_file_url P s.version filename) ≡ ok uri
        → decode (encode content) ≡ ok content
        → (s' : FileServer P) × (files_handler P sort_strings encode decode
              (adding filename name content)
              s
            ≡ some (file_answer P 200 empty, s'))
          × (files_handler P sort_strings encode decode (getting filename) s'
              ≡ some (file_answer P 200 (raw content), s'))
          × (get_file_handler P sort_strings encode decode (asked other) s'
              ≡ get_file_handler P sort_strings encode decode (asked other) s)
    unfolding files_handler get_file_handler add_file_handler get values_of first_value get_field
        lookup get_string list_eq store codes nat_eq
    files_handler-adding filename name content other uri s h k u d =
        let o = file_of filename content uri s in
        (
          record s { files = store filename o s.files },
          rw h (rw (new_file-uri filename content uri s u) refl),
          rw (find-store_same filename o s.files) (rw d refl),
          rw (find-store_other filename other o s.files k) refl,
        )

    -- A file that is deleted is not found, and what is given of another file stays the same.
    files_handler-deleting :
        (filename other : Text) (s : FileServer P)
        → (filename == other) ≡ false
        → (s' : FileServer P) × (files_handler P sort_strings encode decode (deleting filename) s
            ≡ some (file_answer P 200 empty, s'))
          × (files_handler P sort_strings encode decode (getting filename) s'
              ≡ some (file_answer P 404 not_found, s'))
          × (get_file_handler P sort_strings encode decode (asked other) s'
              ≡ get_file_handler P sort_strings encode decode (asked other) s)
    unfolding files_handler file_handler get_file_handler get values_of first_value list_eq codes
        nat_eq
    files_handler-deleting filename other s k = (
      record s { files = remove filename s.files },
      refl,
      rw (find-remove_same filename s.files) refl,
      rw (find-remove_other filename other s.files k) refl,
    )
