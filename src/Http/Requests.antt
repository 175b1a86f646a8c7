-- ===== src/Http/Requests.antt =====
-- The requests of client.go: GET, POST (with and without files), PUT and DELETE, and the making of
-- a client from an API key.
pub mod Laws
use gomaasapi.Prelude.{
  ℕ, Bool, true, false, not, Option, none, some, List, [], ◌∷◌, ◌++◌, if◌then◌else◌, ◌==◌, nat_eq,
  list_eq, Result, ok, err,
}
use gomaasapi.Strings.{Text, codes, split}
use gomaasapi.Params.{Values, get, set}
use gomaasapi.Errors.{other_error, not_valid}
use gomaasapi.Url.{ensure_trailing_slash, add_api_version_to_url}
use gomaasapi.Http.{Platform, Url, HttpRequest, World}
use gomaasapi.Http.Sign.{Signer, OauthToken, anon_signer, plain_text_signer}
use gomaasapi.Http.Dispatch.{Client, Reply, failed, dispatch_request}

abbrev op : Text
op = codes "op"

-- `make(url.Values)` for a nil map
abbrev values_or_empty : Option Values → Values
values_or_empty none = []
values_or_empty (some p) = p

-- `parameters.Set("op", operation)`, unless the operation is blank
with_operation : Text → Values → Values
with_operation operation p = if operation == [] then p else set op operation p

-- The caller's map after `Set`: a nil map stays nil.
caller_values : Option Values → Values → Option Values
caller_values none p = none
caller_values (some q) p = some p

module _ (P : Platform) where
  open P use {Err}

  -- GetURL
  unfoldable pub get_url : Client → Url → Url
  get_url client uri = P.resolve_reference client.api_url uri

  new_request : Text → Url → Option Text → Text → HttpRequest
  new_request method url content_type body = record {
    method = method;
    url = P.url_string url;
    content_type = content_type;
    authorization = [];
    body = body;
    close = false;
  }

  -- http.NewRequest, and the dispatch of its result
  send : Client → Text → Url → Option Text → Text → World P → Reply P × World P
  send client method url content_type body w =
      elim (P.new_request_error method (P.url_string url)) [
        | some e ↦ (failed P e, w)
        | none ↦ dispatch_request P client (new_request method url content_type body) w
      ]

  reserved_message : Text → Text
  reserved_message value =
      codes "reserved parameter 'op' passed (with value '" ++ value ++ codes "')"

  -- Get. The map of parameters is the caller's, so it is returned as it is then.
  unfoldable pub client_get :
      Client → Url → Text → Option Values → World P → Reply P × Option Values × World P
  unfolding with_operation caller_values send new_request reserved_message
  client_get client uri operation parameters w =
      let given = get op (values_or_empty parameters) in
      let p = with_operation operation (values_or_empty parameters) in
      let query_url = record (get_url client uri) { raw_query = P.encode p } in
      let (reply, w') = send client (codes "GET") query_url none [] w in
      if not (given == [])
      then (failed P (P.errors.new (other_error (reserved_message given))), parameters, w)
      else (reply, caller_values parameters p, w')

  -- writeMultiPartFiles, over the files in the order of the map
  unfoldable pub write_multi_part_files : List (Text × Text) → P.Writer → Result Err P.Writer
  write_multi_part_files [] writer = ok writer
  write_multi_part_files ((name, content) ∷ files) writer =
      elim (P.create_form_file name name writer) [
        | err e ↦ err e
        | ok writer' ↦ write_multi_part_files files (P.write content writer')
      ]

  -- The loop over the values of one name.
  write_values : Text → List Text → P.Writer → Result Err P.Writer
  write_values key [] writer = ok writer
  write_values key (value ∷ values) writer = elim (P.create_form_field key writer) [
    | err e ↦ err e
    | ok writer' ↦ write_values key values (P.write value writer')
  ]

  -- writeMultiPartParams
  unfoldable pub write_multi_part_params : Values → P.Writer → Result Err P.Writer
  unfolding write_values
  write_multi_part_params [] writer = ok writer
  write_multi_part_params ((key, values) ∷ parameters) writer =
      elim (write_values key values writer) [
        | err e ↦ err e
        | ok writer' ↦ write_multi_part_params parameters writer'
      ]

  write_message : List (Text × Text) → Values → P.Writer → Result Err P.Writer
  write_message files parameters writer = elim (write_multi_part_files files writer) [
    | err e ↦ err e
    | ok writer' ↦ write_multi_part_params parameters writer'
  ]

  -- nonIdempotentRequestFiles
  unfoldable pub non_idempotent_request_files :
      Client → Text → Url → Values → List (Text × Text) → World P → Reply P × World P
  unfolding write_multi_part_files write_multi_part_params write_message send new_request
  non_idempotent_request_files client method uri parameters files w =
      let (writer, n) = P.new_writer w.net in
      let w1 : World P = record w { net = n } in
      elim (write_message files parameters writer) [
        | err e ↦ (failed P e, w1)
        | ok written ↦
            let closed = P.close_writer written in
            send client method (get_url client uri) (some (P.form_data_content_type closed))
              (P.buffer closed) w1
      ]

  -- nonIdempotentRequest
  unfoldable pub non_idempotent_request : Client → Text → Url → Values → World P → Reply P × World P
  unfolding send new_request
  non_idempotent_request client method uri parameters w =
      send client method (get_url client uri) (some (codes "application/x-www-form-urlencoded"))
        (P.encode parameters) w

  -- `uri.RawQuery = url.Values{"op": {operation}}.Encode()`
  post_url : Text → Url → Url
  post_url operation uri = record uri { raw_query = P.encode ((op, operation ∷ []) ∷ []) }

  -- Post. The URL is the caller's; it is returned with its new query.
  unfoldable pub client_post :
      Client → Url → Text → Values → Option (List (Text × Text)) → World P → Reply P × Url × World P
  unfolding post_url non_idempotent_request_files non_idempotent_request
  client_post client uri operation parameters none w =
      let (reply, w') =
        non_idempotent_request client (codes "POST") (post_url operation uri) parameters w in
      (reply, post_url operation uri, w')
  client_post client uri operation parameters (some files) w =
      let (reply, w') =
        non_idempotent_request_files client (codes "POST") (post_url operation uri) parameters files
          w in
      (reply, post_url operation uri, w')

  -- Put
  unfoldable pub client_put : Client → Url → Values → World P → Reply P × World P
  unfolding non_idempotent_request
  client_put client uri parameters w = non_idempotent_request client (codes "PUT") uri parameters w

  -- Delete
  unfoldable pub client_delete : Client → Url → World P → Option Err × World P
  unfolding send new_request
  client_delete client uri w =
      let (reply, w') = send client (codes "DELETE") (get_url client uri) none [] w in
      (reply.error, w')

  client_of_url : Signer → Result Err Url → Result Err Client
  client_of_url signer (err e) = err e
  client_of_url signer (ok url) = ok (record { api_url = url; signer = signer })

  -- NewAnonymousClient
  unfoldable pub new_anonymous_client : Text → Text → Result Err Client
  unfolding client_of_url
  new_anonymous_client base_url api_version =
      client_of_url anon_signer (P.parse_url (add_api_version_to_url base_url api_version))

  -- The token of the three parts of a key; the consumer secret is empty.
  abbrev pub key_token : Text → Text → Text → OauthToken
  key_token consumer_key token_key token_secret = record {
    consumer_key = consumer_key;
    consumer_secret = [];
    token_key = token_key;
    token_secret = token_secret;
  }

  invalid_key : Text → Text
  invalid_key api_key =
      codes "invalid API key "
      ++ P.quote api_key
      ++ codes "; expected \"<consumer secret>:<token key>:<token secret>\""

  client_of_parts : Text → Text → List Text → Result Err Client
  client_of_parts versioned_url api_key (consumer ∷ key ∷ secret ∷ []) =
      client_of_url (plain_text_signer (key_token consumer key secret) (codes "MAAS API"))
        (P.parse_url (ensure_trailing_slash versioned_url))
  client_of_parts versioned_url api_key _ = err (P.errors.new (not_valid (invalid_key api_key)))

  -- NewAuthenticatedClient
  unfoldable pub new_authenticated_client : Text → Text → Result Err Client
  unfolding client_of_parts client_of_url invalid_key
  new_authenticated_client versioned_url api_key =
      client_of_parts versioned_url api_key (split api_key b':')
