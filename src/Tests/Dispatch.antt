-- ===== src/Tests/Dispatch.antt =====
-- Runs of the retry loop.
use gomaasapi.Prelude.{
  ℕ, ◌≤◌, ◌≡◌, refl, ◌⊎◌, false, none, some, List, [], ◌∷◌, ◌++◌, nat_eq, list_eq, length,
}
use gomaasapi.Strings.{codes, split, join}
use gomaasapi.Strings.Decimal.{itoa, atoi}
use gomaasapi.Params.{first_value}
use gomaasapi.Errors.{get_server_error}
use gomaasapi.Http.{HttpRequest, Event, World}
use gomaasapi.Http.Sign.{oauth_sign}
use gomaasapi.Http.Dispatch.{number_of_retries, header_get, retry_after, dispatch_request}
use gomaasapi.Http.Dispatch.Retry.{Exchange, dispatch_request-Exchange}
use gomaasapi.Http.Dispatch.Headers.{Headers, dispatch_request-Headers}
use gomaasapi.Http.Requests.{key_token}
use gomaasapi.Tests.Bench.{encode_values, bench, world, client, answered, busy}

abbrev put_request : HttpRequest
put_request = record {
  method = codes "PUT";
  url = codes "/MAAS/api/2.0/tags/";
  content_type = some (codes "application/x-www-form-urlencoded");
  authorization = [];
  body = codes "a=1";
  close = false;
}

-- The server asks twice to wait, and then answers.
abbrev slow_server : World bench
slow_server = world (busy ∷ busy ∷ answered 200 [] (codes "[]") ∷ [])

slow_run :
    (dispatch_request bench client put_request slow_server).0
    ≡ record { body = some (codes "[]"); error = none }
unfolding dispatch_request codes oauth_sign atoi itoa header_get retry_after split join
    get_server_error encode_values list_eq first_value
slow_run = refl

-- A server that asks for a retry each time is given up after the fifth attempt.
stubborn_run :
    length
      (dispatch_request bench client put_request
        (world (busy ∷ busy ∷ busy ∷ busy ∷ busy ∷ busy ∷ []))).1.net
    ≡ 1
unfolding dispatch_request codes oauth_sign atoi itoa header_get retry_after split join
    get_server_error encode_values list_eq first_value
stubborn_run = refl

dispatch_request-Exchange_example :
    let (reply, w') = dispatch_request bench client put_request slow_server in
    (k : ℕ) × (events : List Event) × (k ≤ number_of_retries)
    × (w'.trace ≡ [] ++ events)
    × Exchange put_request k events
    × ((retry_after bench reply.error ≡ none) ⊎ (k ≡ number_of_retries))
dispatch_request-Exchange_example = dispatch_request-Exchange bench client put_request slow_server

dispatch_request-Headers_example :
    (events : List Event) × ((dispatch_request bench client put_request slow_server).1.trace
      ≡ [] ++ events)
    × Headers 0 events
dispatch_request-Headers_example =
    dispatch_request-Headers bench (λ n. (_, refl))
      (key_token bench (codes "c") (codes "t") (codes "s")) (codes "MAAS API") client put_request
      slow_server refl refl
