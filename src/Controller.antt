-- ===== src/Controller.antt =====
-- controller.go: the controller's state, and its requests to the server, on which every operation
-- of the API types is built.
pub mod Answers
pub mod Capabilities
pub mod Operations
pub mod Inventory
pub mod Allocation
pub mod Creation
use gomaasapi.Prelude.{
  ℕ, Bool, true, false, Option, none, some, List, [], ◌∷◌, Result, ok, err, Action, ◌>>=◌, return,
  throw, lift, incr_int64,
}
use gomaasapi.Strings.{Text, codes}
use gomaasapi.Params.{Values}
use gomaasapi.Url.{ensure_trailing_slash}
pub use gomaasapi.Versions.{Version}
use gomaasapi.Value.{Value}
use gomaasapi.Http.{Platform, World, path_url}
use gomaasapi.Http.Dispatch.{Client, Reply}
use gomaasapi.Http.Requests.{client_get, client_post, client_put, client_delete}

-- controller; the set of capabilities is a list.
pub record Controller : Type 0 where
  pub client : Client
  pub api_version : Version
  pub capabilities : List Text

module _ (P : Platform) where
  open P use {Err}

  abbrev pub Api {ℓ} : Type ℓ → Type ℓ
  Api A = Action (World P) Err A

  -- nextRequestID. The number is used in log lines only.
  unfoldable pub next_request_id : World P → World P
  next_request_id w = record w { request_number = incr_int64 w.request_number }

  -- `if err != nil { return nil, errors.Trace(err) }`, else the bytes
  traced : Option Err → Option Text → Result Err Text
  traced (some e) bytes = err (P.errors.trace e)
  traced none none = ok []
  traced none (some bytes) = ok bytes

  unmarshalled : Result Err (Value P.Float) → Result Err (Value P.Float)
  unmarshalled (ok v) = ok v
  unmarshalled (err e) = err (P.errors.trace e)

  -- `json.Unmarshal` of an answer; the errors of both steps are traced.
  parse_answer : Result Err Text → Result Err (Value P.Float)
  unfolding unmarshalled
  parse_answer (err e) = err (P.errors.trace e)
  parse_answer (ok bytes) = unmarshalled (P.unmarshal bytes)

  module _ (c : Controller) where
    -- put. The error of the request is traced once.
    unfoldable pub put : Text → Values → Api (Value P.Float)
    unfolding next_request_id traced unmarshalled
    put path params w =
        let (reply, w') =
          client_put P c.client (path_url (ensure_trailing_slash path)) params
            (next_request_id w) in
        elim (traced reply.error reply.body) [
          | err e ↦ (err e, w')
          | ok bytes ↦ (unmarshalled (P.unmarshal bytes), w')
        ]

    -- _postRaw
    unfoldable pub post_raw : Text → Text → Values → Option (List (Text × Text)) → Api Text
    unfolding next_request_id traced
    post_raw path op params files w =
        let (reply, _, w') =
          client_post P c.client (path_url (ensure_trailing_slash path)) op params files
            (next_request_id w) in
        (traced reply.error reply.body, w')

    -- post
    unfoldable pub post : Text → Text → Values → Api (Value P.Float)
    unfolding post_raw parse_answer
    post path op params w =
        let (bytes, w') = post_raw path op params none w in (parse_answer bytes, w')

    -- postFile. It returns the bytes of the answer.
    unfoldable pub post_file : Text → Text → Values → Text → Api Text
    unfolding post_raw
    post_file path op params file_content =
        post_raw path op params (some ((codes "file", file_content) ∷ []))

    delete_result : Option Err → Result Err (Unit {0})
    delete_result none = ok tt
    delete_result (some e) = err (P.errors.trace e)

    -- delete
    unfoldable pub delete : Text → Api (Unit {0})
    unfolding next_request_id delete_result
    delete path w =
        let (e, w') =
          client_delete P c.client (path_url (ensure_trailing_slash path)) (next_request_id w) in
        (delete_result e, w')

    -- _getRaw
    unfoldable pub get_raw : Text → Text → Option Values → Api Text
    unfolding next_request_id traced
    get_raw path op params w =
        let (reply, _, w') =
          client_get P c.client (path_url (ensure_trailing_slash path)) op params
            (next_request_id w) in
        (traced reply.error reply.body, w')

    -- _get
    unfoldable pub get_value : Text → Text → Option Values → Api (Value P.Float)
    unfolding get_raw parse_answer
    get_value path op params w =
        let (bytes, w') = get_raw path op params w in (parse_answer bytes, w')

    -- getQuery, get and getOp
    unfoldable pub get_query : Text → Values → Api (Value P.Float)
    unfolding get_value
    get_query path params = get_value path [] (some params)

    unfoldable pub get : Text → Api (Value P.Float)
    unfolding get_value
    get path = get_value path [] none

    unfoldable pub get_op : Text → Text → Api (Value P.Float)
    unfolding get_value
    get_op path op = get_value path op none
