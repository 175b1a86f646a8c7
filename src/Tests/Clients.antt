-- ===== src/Tests/Clients.antt =====
-- API keys, and the parameters of a GET.
use gomaasapi.Prelude.{◌≡◌, refl, ◌≢◌, some, [], ◌∷◌, arith, nat_eq, list_eq, ok}
use gomaasapi.Strings.{codes}
use gomaasapi.Strings.Split.{occurrences}
use gomaasapi.Url.{ensure_trailing_slash}
use gomaasapi.Errors.{ErrorValue}
use gomaasapi.Http.{path_url}
use gomaasapi.Http.Sign.{plain_text_signer}
use gomaasapi.Http.Dispatch.{failed}
use gomaasapi.Http.Requests.{client_get, new_authenticated_client}
use gomaasapi.Http.Requests.Laws.{client_get_twice, new_authenticated_client_lem}
use gomaasapi.Tests.Bench.{bench, world, client, answered}

list_op : codes "list" ≢ []
unfolding codes
list_op e = cc

-- The map of the caller, after a first call, cannot be used for a second one.
client_get_twice_example :
    let (_, p', w') =
      client_get bench client
        (path_url (codes "nodes/"))
        (codes "list")
        (some [])
        (world (answered 200 [] (codes "[]") ∷ [])) in
    (e : ErrorValue) × (client_get bench client (path_url (codes "files/")) (codes "get") p' w'
      ≡ (failed bench e, p', w'))
client_get_twice_example =
    client_get_twice bench client (path_url (codes "nodes/")) (path_url (codes "files/"))
      (codes "list") (codes "get") [] (world (answered 200 [] (codes "[]") ∷ [])) list_op

new_authenticated_client_lem_example :
    new_authenticated_client bench (codes "/api/2.0") (b'a' ∷ b':' ∷ (b'b' ∷ b':' ∷ (b'c' ∷ [])))
    ≡ ok (record {
      api_url = path_url (ensure_trailing_slash (codes "/api/2.0"));
      signer =
          plain_text_signer
            (record {
              consumer_key = b'a' ∷ [];
              consumer_secret = [];
              token_key = b'b' ∷ [];
              token_secret = b'c' ∷ [];
            })
            (codes "MAAS API");
    })
new_authenticated_client_lem_example =
    new_authenticated_client_lem bench (codes "/api/2.0") (b'a' ∷ []) (b'b' ∷ []) (b'c' ∷ [])
      (path_url (ensure_trailing_slash (codes "/api/2.0"))) (omega arith, tt) (omega arith, tt)
      (omega arith, tt) refl

one_colon : occurrences b':' (b'a' ∷ b':' ∷ b'b' ∷ []) ≢ 2
unfolding occurrences nat_eq
one_colon e = omega arith
