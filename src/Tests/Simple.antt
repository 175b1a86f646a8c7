-- ===== src/Tests/Simple.antt =====
-- The servers of testing.go, at concrete requests.
use gomaasapi.Prelude.{
  ℕ, ◌≡◌, refl, ◌⊎◌, true, ◌&&◌, Option, none, some, List, [], ◌∷◌, ◌++◌, ◌==◌, list_eq, nat_eq,
  if◌then◌else◌,
}
use gomaasapi.Strings.{Text, codes}
use gomaasapi.TestServer.Store.{find, store}
use gomaasapi.Testing.{
  SimpleResponse, simple_response, SimpleRequest, SimpleTestServer, Method, get_method, method_of,
  new_simple_server, add_response, handler, serve, next_response, missing_page, flaky_handler,
}
use gomaasapi.Testing.Added.{left}
use gomaasapi.Testing.Laws.{Reachable, fresh, with_response, handler_lem}
use gomaasapi.Testing.Methods.{pending, same}

abbrev request : SimpleRequest
request = record { method = codes "GET"; uri = codes "/a"; body = []; is_read = true }

abbrev two_responses : SimpleTestServer
two_responses =
    add_response get_method (codes "/a") 200 (codes "second")
      (add_response get_method (codes "/a") 404 (codes "first") new_simple_server)

two_responses-Reachable : Reachable two_responses
two_responses-Reachable =
    with_response get_method (codes "/a") 200 (codes "second")
      (with_response get_method (codes "/a") 404 (codes "first") fresh)

handler_lem_example :
    ((k : Method) (path : Text) (status : ℕ) (body : Text) (n : Method) (uri : Text)
      → pending n uri (add_response k path status body two_responses) ≡ (
          if same n k && uri == path
          then some (left (pending k path two_responses) ++ simple_response status body ∷ [])
          else pending n uri two_responses))
    × (((pending get_method (codes "/a") two_responses ≡ none)
          × (handler request two_responses ≡ (
            some (missing_page (codes "/a")),
            record two_responses { requests = two_responses.requests ++ request ∷ [] },
          )))
        ⊎ ((pending get_method (codes "/a") two_responses ≡ some [])
            × (handler request two_responses ≡ (
              none,
              record two_responses { requests = two_responses.requests ++ request ∷ [] },
            )))
        ⊎ ((a : SimpleResponse) × (rest : List SimpleResponse) × (s : SimpleTestServer) × (pending
                get_method
                (codes "/a")
                two_responses
              ≡ some (a ∷ rest))
            × (handler request two_responses ≡ (some a, s))
            × (s.requests ≡ two_responses.requests ++ request ∷ [])
            × ((n : Method) (uri : Text)
                → pending n uri s ≡ (
                    if same n get_method && uri == codes "/a"
                    then some rest
                    else pending n uri two_responses))))
handler_lem_example = handler_lem get_method request two_responses two_responses-Reachable refl refl

-- The response that was added first is the first to be given.
first_response : Option SimpleResponse
first_response = (handler request two_responses).0

first_response_run : first_response ≡ some (simple_response 404 (codes "first"))
unfolding first_response handler method_of list_eq nat_eq codes add_response store find serve
    next_response
first_response_run = refl

-- A flaky server with one flaky response asks for a retry at the first request.
flaky_run :
    flaky_handler (codes "/a") 503 1 request (record { nb_requests = 0; requests = [] })
    ≡ some
        (simple_response 503 (codes "flaky"), true, record { nb_requests = 1; requests = [] ∷ [] })
unfolding flaky_handler list_eq nat_eq codes
flaky_run = refl
