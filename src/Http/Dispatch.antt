-- ===== src/Http/Dispatch.antt =====
-- `dispatchRequest` and `dispatchSingleRequest` of client.go: one request, and the loop that sends
-- it again when the server asks for that.
pub mod Headers
pub mod Retry
use gomaasapi.Prelude.{
  ℕ, zero, suc, Bool, true, false, Option, none, some, List, [], ◌∷◌, ◌++◌, if◌then◌else◌, ◌==◌,
  nat_eq, list_eq, ltb, ◌||◌, Result, ok, err, ℤ, mul_int64,
}
use gomaasapi.Strings.{Text, codes}
use gomaasapi.Strings.Decimal.{atoi}
use gomaasapi.Params.{first_value}
use gomaasapi.Errors.{ServerError, server_error, get_server_error}
use gomaasapi.Http.{Platform, Url, HttpRequest, Response, Event, sent, waited, World}
use gomaasapi.Http.Sign.{Signer, oauth_sign}

-- Client
pub record Client : Type 0 where
  pub api_url : Url
  pub signer : Signer

-- NumberOfRetries
abbrev pub number_of_retries : ℕ
number_of_retries = 4

-- `http.Header.Get`, at a canonical name
unfoldable pub header_get : Text → List (Text × List Text) → Text
header_get key [] = []
header_get key ((name, values) ∷ h) = if name == key then first_value values else header_get key h

module _ (P : Platform) where
  open P use {Err}

  -- The pair `([]byte, error)` of client.go, where the two may come together.
  pub record Reply : Type 0 where
    pub body : Option Text
    pub error : Option Err

  abbrev pub failed : Err → Reply
  failed e = record { body = none; error = some e }

  -- What an answer comes to: an unreadable body, a status outside of 200 to 299, or the body.
  unfoldable pub read_response : Response Err → Reply
  read_response response = elim response.body [
    | err e ↦ failed e
    | ok body ↦
        if ltb response.status_code 200 || ltb 299 response.status_code
        then record {
          body = some body;
          error = some (
              P.errors.trace (
                P.errors.new (
                  server_error (record {
                    text =
                        codes "ServerError: " ++ response.status ++ codes " (" ++ body ++ codes ")";
                    status_code = response.status_code;
                    header = response.header;
                    body_message = body;
                  }))));
        }
        else record { body = some body; error = none }
  ]

  signed_request : HttpRequest → Result Err HttpRequest → HttpRequest
  signed_request request (ok r) = r
  signed_request request (err e) = request

  read_outcome : Result Err (Response Err) → Reply
  unfolding read_response
  read_outcome (err e) = failed e
  read_outcome (ok response) = read_response response

  -- dispatchSingleRequest. It also returns the request, which signing has changed and whose body was
  -- read. An error of the signer is dropped.
  unfoldable pub dispatch_single_request :
      Client → HttpRequest → World P → Reply × HttpRequest × World P
  unfolding signed_request read_outcome
  dispatch_single_request client request w =
      let (signed, n) = oauth_sign P client.signer request w.net in
      let out = record (signed_request request signed) { close = true } in
      let (outcome, n') = P.do_request out n in
      (
        read_outcome outcome,
        record out { body = P.body_left out n },
        record w { net = n'; trace = w.trace ++ sent out ∷ [] },
      )

  -- The seconds that a server error asks to wait before the request is sent again.
  retry_time : Option ServerError → Option ℤ
  retry_time none = none
  retry_time (some s) =
      if s.status_code == 503 then atoi (header_get (codes "Retry-After") s.header) else none

  unfoldable pub retry_after : Option Err → Option ℤ
  unfolding retry_time header_get get_server_error
  retry_after none = none
  retry_after (some e) = retry_time (get_server_error P.errors e)

  -- `time.Duration(n) * time.Second`, in 64 bits
  abbrev pub wait : ℤ → World P → World P
  wait n w = record w { trace = w.trace ++ waited (mul_int64 n 1000000000) ∷ [] }

  abbrev pub with_body : Text → HttpRequest → HttpRequest
  with_body content request = record request { body = content }

  -- The loop, with the retries left; behind it stands the last request.
  unfoldable pub retry_loop :
      ℕ → Client → Text → HttpRequest → World P → Reply × HttpRequest × World P
  retry_loop zero client content request w =
      dispatch_single_request client (with_body content request) w
  retry_loop (suc n) client content request w =
      let (reply, request', w') = dispatch_single_request client (with_body content request) w in
      elim (retry_after reply.error) [
        | none ↦ (reply, request', w')
        | some seconds ↦ retry_loop n client content request' (wait seconds w')
      ]

  -- dispatchRequest
  unfoldable pub dispatch_request : Client → HttpRequest → World P → Reply × World P
  unfolding retry_loop dispatch_single_request retry_after
  dispatch_request client request w =
      let (reply, _, w') = retry_loop number_of_retries client request.body request w in (reply, w')
