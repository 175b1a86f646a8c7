-- ===== src/Testing.antt =====
-- testing.go: the servers that the tests of the library run against. A panic is `none`.
pub mod Queues
pub mod Added
pub mod Methods
pub mod Laws
use gomaasapi.Prelude.{
  ℕ, suc, not, ◌+◌, ◌-◌, ◌<◌, Bool, true, false, Option, none, some, List, [], ◌∷◌, ◌++◌, length,
  drop, if◌then◌else◌, ◌==◌, nat_eq, list_eq, leb,
}
use gomaasapi.Strings.{Text, codes}
use gomaasapi.TestServer.Store.{Store, find, store}

-- simpleResponse
pub record SimpleResponse : Type 0 where
  pub status : ℕ
  pub body : Text

abbrev pub simple_response : ℕ → Text → SimpleResponse
simple_response status body = record { status = status; body = body }

-- The parts of http.Request that the servers read: the method, the URL as a string, the body, and
-- whether the body, or the form in it, is read without an error.
pub record SimpleRequest : Type 0 where
  pub method : Text
  pub uri : Text
  pub body : Text
  pub is_read : Bool

-- http.Error of a page that is not found
not_found_message : Text → Text → Text
not_found_message expected uri =
    codes "Error 404: page not found (expected '"
    ++ expected
    ++ codes "', got '"
    ++ uri
    ++ codes "')."
    ++ 10 ∷ []

-- The variables of newSingleServingServer
pub record SingleServing : Type 0 where
  pub request_content : Text
  pub requested : Bool

-- The handler of newSingleServingServer. At a second request the status is 503, and what is written
-- for the first is written behind the message.
unfoldable pub single_serving_handler :
    Text → Text → ℕ → SimpleRequest → SingleServing → Option (SimpleResponse × SingleServing)
unfolding not_found_message
single_serving_handler uri response code r s =
    let first = if s.requested then codes "Already requested" ++ 10 ∷ [] else [] in
    let is_there = r.uri == uri in
    let status = if s.requested then 503 else if is_there then code else 404 in
    let body = if is_there then response else not_found_message uri r.uri in
    if r.is_read
    then some (
      simple_response status (first ++ body),
      record { request_content = r.body; requested = true },
    )
    else none

-- The variables of newFlakyServer: `requests` has the bodies so far.
pub record Flaky : Type 0 where
  pub nb_requests : ℕ
  pub requests : List Text

-- The handler of newFlakyServer: the response, and whether it has the header `Retry-After: 0`. There
-- is room for one request more than there are flaky responses.
unfoldable pub flaky_handler :
    Text → ℕ → ℕ → SimpleRequest → Flaky → Option (SimpleResponse × Bool × Flaky)
unfolding not_found_message
flaky_handler uri code nb_flaky_responses r s =
    let nb = s.nb_requests + 1 in
    let s' : Flaky = record { nb_requests = nb; requests = s.requests ++ r.body ∷ [] } in
    if r.is_read
    then if leb nb (nb_flaky_responses + 1)
      then if not (r.uri == uri)
        then some (simple_response 404 (not_found_message uri r.uri), false, s')
        else if leb nb nb_flaky_responses
        then some (simple_response code (codes "flaky"), code == 503, s')
        else some (simple_response 200 (codes "ok"), false, s')
      else none
    else none

-- The responses to one method, and which is the next for each path
pub record Served : Type 0 where
  pub responses : Store (List SimpleResponse)
  pub response_index : Store ℕ

-- SimpleTestServer
pub record SimpleTestServer : Type 0 where
  pub get_served : Served
  pub put_served : Served
  pub post_served : Served
  pub delete_served : Served
  pub requests : List SimpleRequest

abbrev nothing_served : Served
nothing_served = record { responses = []; response_index = [] }

-- NewSimpleServer
abbrev pub new_simple_server : SimpleTestServer
new_simple_server = record {
  get_served = nothing_served;
  put_served = nothing_served;
  post_served = nothing_served;
  delete_served = nothing_served;
  requests = [];
}

-- The `switch` on the method
pub data Method : Type 0 where
  get_method : Method
  put_method : Method
  post_method : Method
  delete_method : Method

unfoldable pub method_of : Text → Option Method
method_of s =
    if s == codes "GET"
    then some get_method
    else if s == codes "PUT"
    then some put_method
    else if s == codes "POST"
    then some post_method
    else if s == codes "DELETE"
    then some delete_method
    else none

abbrev pub served : Method → SimpleTestServer → Served
served get_method s = s.get_served
served put_method s = s.put_served
served post_method s = s.post_served
served delete_method s = s.delete_served

abbrev pub with_served : Method → Served → SimpleTestServer → SimpleTestServer
with_served get_method q s = record s { get_served = q }
with_served put_method q s = record s { put_served = q }
with_served post_method q s = record s { post_served = q }
with_served delete_method q s = record s { delete_served = q }

abbrev pub responses_at : Text → Served → List SimpleResponse
responses_at path q = elim (find path q.responses) [ none ↦ [] | some l ↦ l ]

abbrev pub index_at : Text → Served → ℕ
index_at path q = elim (find path q.response_index) [ none ↦ 0 | some i ↦ i ]

-- AddGetResponse, AddPutResponse, AddPostResponse and AddDeleteResponse
unfoldable pub add_response : Method → Text → ℕ → Text → SimpleTestServer → SimpleTestServer
add_response m path status body s =
    let q = served m s in
    let responses = responses_at path q ++ simple_response status body ∷ [] in
    with_served m (record q { responses = store path responses q.responses }) s

-- `testResponses[index]`, with what is behind it
unfoldable pub next_response : List SimpleResponse → Option (SimpleResponse × List SimpleResponse)
next_response [] = none
next_response (r ∷ rest) = some (r, rest)

-- The answer to a URL without responses
abbrev pub missing_page : Text → SimpleResponse
missing_page uri =
    simple_response 404 (codes "Error 404: page not found ('" ++ uri ++ codes "')." ++ 10 ∷ [])

-- The end of the handler: the next response to a URL
unfoldable pub serve : Text → Served → Option (SimpleResponse × Served)
serve uri q = elim (find uri q.responses) [
  | none ↦ some (missing_page uri, q)
  | some l ↦ elim (next_response (drop (index_at uri q) l)) [
    | none ↦ none
    | some (r, rest) ↦
        some (r, record q { response_index = store uri (suc (index_at uri q)) q.response_index })
  ]
]

-- handler: the response, `none` where it panics, and what it leaves of the server. A request is
-- recorded before its response is looked up.
unfoldable pub handler : SimpleRequest → SimpleTestServer → Option SimpleResponse × SimpleTestServer
handler r s = elim (method_of r.method) [
  | none ↦ (none, s)
  | some m ↦
      let s' : SimpleTestServer = record s { requests = s.requests ++ r ∷ [] } in
      if r.is_read
      then elim (serve r.uri (served m s)) [
        | none ↦ (none, s')
        | some (a, q) ↦ (some a, with_served m q s')
      ]
      else (none, s)
]

-- LastRequest
unfoldable pub last_request : List SimpleRequest → Option SimpleRequest
last_request [] = none
last_request (r ∷ []) = some r
last_request (r ∷ next ∷ l) = last_request (next ∷ l)

-- LastNRequests
unfoldable pub last_n_requests : ℕ → SimpleTestServer → List SimpleRequest
last_n_requests n s = drop (length s.requests - n) s.requests

-- RequestCount
unfoldable pub request_count : SimpleTestServer → ℕ
request_count s = length s.requests

-- ResetRequests
unfoldable pub reset_requests : SimpleTestServer → SimpleTestServer
reset_requests s = record s { requests = [] }
