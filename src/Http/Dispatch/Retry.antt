-- ===== src/Http/Dispatch/Retry.antt =====
-- The retry loop: how often a request is sent, what is sent each time, and when the loop stops.
use gomaasapi.Prelude.{
  ℕ, zero, suc, ◌≤◌, ◌≡◌, refl, ◌∙◌, ◌⊎◌, inl, inr, true, none, some, List, [], ◌∷◌, ◌++◌,
  append_assoc, arith, ℤ, mul_int64, Option-cases,
}
use gomaasapi.Strings.{Text}
use gomaasapi.Http.{Platform, HttpRequest, Event, sent, waited, World}
use gomaasapi.Http.Sign.{Signer, anon_signer, plain_text_signer, oauth_sign}
use gomaasapi.Http.Dispatch.{
  Client, Reply, number_of_retries, dispatch_single_request, signed_request, retry_after,
  retry_loop, dispatch_request, with_body, wait,
}

-- A request as it was handed in, but for its Authorization headers: `close` is set.
pub record SameRequest (request out : HttpRequest) : Type 0 where
  pub method : out.method ≡ request.method
  pub url : out.url ≡ request.url
  pub content_type : out.content_type ≡ request.content_type
  pub body : out.body ≡ request.body
  pub close : out.close ≡ true

-- `k + 1` requests, each the one that was handed in, with a wait between two of them.
pub data Exchange (request : HttpRequest) : ℕ → List Event → Type 0 where
  last : {out : HttpRequest} → SameRequest request out → Exchange request zero (sent out ∷ [])
  again :
      {out : HttpRequest} {duration : ℤ} {k : ℕ} {events : List Event}
      → SameRequest request out
      → Exchange request k events
      → Exchange request (suc k) (sent out ∷ waited duration ∷ events)

-- The request that the loop holds, whose body and headers may differ.
record Like (request r : HttpRequest) : Type 0 where
  method : r.method ≡ request.method
  url : r.url ≡ request.url
  content_type : r.content_type ≡ request.content_type

module _ (P : Platform) where
  sign-SameRequest :
      (signer : Signer) (request r : HttpRequest) (n : P.Net)
      → Like request r
      → SameRequest request
          (record (signed_request P
            (with_body P request.body r)
            (oauth_sign P signer (with_body P request.body r) n).0) { close = true })
  unfolding oauth_sign signed_request
  sign-SameRequest anon_signer request r n l = record {
    method = l.method;
    url = l.url;
    content_type = l.content_type;
    body = refl;
    close = refl;
  }
  sign-SameRequest (plain_text_signer token realm) request r n l = ground arith

  -- One round: what is sent, and what is added to the trace.
  dispatch_single_request_lem :
      (client : Client) (request r : HttpRequest) (w : World P)
      → Like request r
      → let (reply, r', w') = dispatch_single_request P client (with_body P request.body r) w in
        (out : HttpRequest) × SameRequest request out
        × (w'.trace ≡ w.trace ++ sent out ∷ [])
        × Like request r'
  unfolding dispatch_single_request
  dispatch_single_request_lem client request r w l =
      let s = sign-SameRequest client.signer request r w.net l in
      (_, s, refl, record { method = s.method; url = s.url; content_type = s.content_type })

  -- What a run of the loop with `n` retries left did.
  abbrev Ran : HttpRequest → ℕ → World P → Reply P × HttpRequest × World P → Type 0
  Ran request n w (reply, out, w') =
      (k : ℕ) × (events : List Event) × (k ≤ n)
      × (w'.trace ≡ w.trace ++ events)
      × Exchange request k events
      × ((retry_after P reply.error ≡ none) ⊎ (k ≡ n))

  Ran-again :
      (request out : HttpRequest) (n : ℕ) (seconds : ℤ) (w w1 : World P)
      (result : Reply P × HttpRequest × World P)
      → SameRequest request out
      → w1.trace ≡ w.trace ++ sent out ∷ []
      → Ran request n (wait P seconds w1) result
      → Ran request (suc n) w result
  Ran-again request out n seconds w w1 result s t (k, events, le, t', x, stop) = (
    suc k,
    sent out ∷ waited (mul_int64 seconds 1000000000) ∷ events,
    omega arith,
    t' ∙ rw (t, append_assoc, append_assoc),
    again s x,
    ground arith,
  )

  module _ (n : ℕ) (client : Client) (content : Text) (r : HttpRequest) (w : World P) where
    pub retry_loop-zero :
        retry_loop P zero client content r w
        ≡ dispatch_single_request P client (with_body P content r) w
    unfolding retry_loop
    retry_loop-zero = refl

    pub retry_loop_stop :
        retry_after P (dispatch_single_request P client (with_body P content r) w).0.error ≡ none
        → retry_loop P (suc n) client content r w
          ≡ dispatch_single_request P client (with_body P content r) w
    unfolding retry_loop
    retry_loop_stop e = rw (e, retry_loop)

    pub retry_loop_again :
        {seconds : ℤ}
        → retry_after P (dispatch_single_request P client (with_body P content r) w).0.error
          ≡ some seconds
        → retry_loop P (suc n) client content r w ≡ (
            let (_, out, w') = dispatch_single_request P client (with_body P content r) w in
            retry_loop P n client content out (wait P seconds w'))
    unfolding retry_loop
    retry_loop_again e = rw (e, retry_loop)

  retry_loop-Ran :
      (n : ℕ) (client : Client) (request r : HttpRequest) (w : World P)
      → Like request r
      → Ran request n w (retry_loop P n client request.body r w)
  retry_loop-Ran zero client request r w l =
      let (out, s, t, l') = dispatch_single_request_lem client request r w l in
      rw (retry_loop-zero zero client request.body r w)
        (zero, sent out ∷ [], omega arith, t, last s, inr refl)
  retry_loop-Ran (suc n) client request r w l =
      let round = dispatch_single_request P client (with_body P request.body r) w in
      let (out, s, t, l') = dispatch_single_request_lem client request r w l in
      elim (Option-cases (retry_after P round.0.error)) [
        | inl e ↦
            rw (retry_loop_stop n client request.body r w e)
              (zero, sent out ∷ [], omega arith, t, last s, inl e)
        | inr (seconds, e) ↦ rw (retry_loop_again n client request.body r w e) (
            Ran-again request out n seconds w round.2
              (retry_loop P n client request.body round.1 (wait P seconds round.2)) s t
              (retry_loop-Ran n client request round.1 (wait P seconds round.2) l'))
      ]

  -- A dispatched request is sent at most five times, with a wait between two attempts; each time it
  -- is the request that was handed in, its body included. The loop ends with an answer that asks for
  -- no retry, or with the fifth attempt.
  pub dispatch_request-Exchange :
      (client : Client) (request : HttpRequest) (w : World P)
      → let (reply, w') = dispatch_request P client request w in
        (k : ℕ) × (events : List Event) × (k ≤ number_of_retries)
        × (w'.trace ≡ w.trace ++ events)
        × Exchange request k events
        × ((retry_after P reply.error ≡ none) ⊎ (k ≡ number_of_retries))
  unfolding dispatch_request
  dispatch_request-Exchange client request w =
      retry_loop-Ran number_of_retries client request request w
        (record { method = refl; url = refl; content_type = refl })
