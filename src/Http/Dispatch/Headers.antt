-- ===== src/Http/Dispatch/Headers.antt =====
-- The Authorization headers that the retry loop sends: the request is signed again for each
-- attempt, and `http.Header.Add` keeps the headers of the attempts before.
use gomaasapi.Prelude.{
  ℕ, zero, suc, ◌+◌, ◌≡◌, refl, ◌∙◌, ap, List, [], ◌∷◌, ◌++◌, append_assoc, ok, length,
  length-append, Option-cases, inl, inr, mul_int64,
}
use gomaasapi.Strings.{Text}
use gomaasapi.Http.{Platform, HttpRequest, Event, sent, waited, World}
use gomaasapi.Http.Sign.{OauthToken, plain_text_signer, oauth_sign, oauth_sign-authorization}
use gomaasapi.Http.Dispatch.{
  Client, Reply, number_of_retries, dispatch_single_request, signed_request, retry_after,
  retry_loop, dispatch_request, with_body, wait,
}
use gomaasapi.Http.Dispatch.Retry.{retry_loop-zero, retry_loop_stop, retry_loop_again}

-- Each request sent has one Authorization header more than the one before; the first has one more
-- than `a`.
abbrev pub Headers : ℕ → List Event → Type 0
Headers a [] = Unit {0}
Headers a (sent r ∷ events) = (length r.authorization ≡ a + 1) × Headers (a + 1) events
Headers a (waited d ∷ events) = Headers a events

module _ (P : Platform) (random : (n : P.Net) → (bytes : List ℕ) × ((P.rand_read n).0 ≡ ok bytes))
    (token : OauthToken) (realm : Text) where
  sign-authorization :
      (request : HttpRequest) (n : P.Net)
      → length
          (signed_request P request
            (oauth_sign P (plain_text_signer token realm) request n).0).authorization
        ≡ length request.authorization + 1
  unfolding signed_request
  sign-authorization request n =
      let (bytes, e) = random n in
      let (header, signed) = oauth_sign-authorization P token realm request n bytes e in
      rw signed (length-append request.authorization (header ∷ []))

  single_authorization :
      (client : Client) (content : Text) (r : HttpRequest) (w : World P)
      → client.signer ≡ plain_text_signer token realm
      → let (reply, r', w') = dispatch_single_request P client (with_body P content r) w in
        (out : HttpRequest) × (length out.authorization ≡ length r.authorization + 1)
        × (w'.trace ≡ w.trace ++ sent out ∷ [])
        × (length r'.authorization ≡ length r.authorization + 1)
  unfolding dispatch_single_request
  single_authorization client content r w e =
      let h = sign-authorization (with_body P content r) w.net in (_, rw e h, refl, rw e h)

  abbrev Counted : ℕ → World P → Reply P × HttpRequest × World P → Type 0
  Counted a w (reply, out, w') =
      (events : List Event) × (w'.trace ≡ w.trace ++ events) × Headers a events

  Counted-last :
      (a : ℕ) (w : World P) (out : HttpRequest) (result : Reply P × HttpRequest × World P)
      → length out.authorization ≡ a + 1
      → result.2.trace ≡ w.trace ++ sent out ∷ []
      → Counted a w result
  Counted-last a w out result h t = (sent out ∷ [], t, (h, tt))

  retry_loop-Counted :
      (n : ℕ) (client : Client) (content : Text) (r : HttpRequest) (w : World P)
      → client.signer ≡ plain_text_signer token realm
      → Counted (length r.authorization) w (retry_loop P n client content r w)
  retry_loop-Counted zero client content r w e =
      let (out, h, t, h') = single_authorization client content r w e in
      rw (retry_loop-zero P zero client content r w) (
        Counted-last (length r.authorization) w out
          (dispatch_single_request P client (with_body P content r) w) h t)
  retry_loop-Counted (suc n) client content r w e =
      let round = dispatch_single_request P client (with_body P content r) w in
      let (out, h, t, h') = single_authorization client content r w e in
      elim (Option-cases (retry_after P round.0.error)) [
        | inl p ↦
            rw (retry_loop_stop P n client content r w p)
              (Counted-last (length r.authorization) w out round h t)
        | inr (seconds, p) ↦
            let (events, t', hs) =
              retry_loop-Counted n client content round.1 (wait P seconds round.2) e in
            rw (retry_loop_again P n client content r w p) (
              sent out ∷ waited (mul_int64 seconds 1000000000) ∷ events,
              t' ∙ rw (t, append_assoc, append_assoc),
              (h, rw h' at hs),
            )
      ]

  -- Signing adds a header each time: of the attempts to send a request that comes with no
  -- Authorization header, the second carries two of them, the third three, and so on. This holds
  -- for a client with a key, as long as random numbers can be read.
  pub dispatch_request-Headers :
      (client : Client) (request : HttpRequest) (w : World P)
      → client.signer ≡ plain_text_signer token realm
      → request.authorization ≡ []
      → (events : List Event) × ((dispatch_request P client request w).1.trace ≡ w.trace ++ events)
        × Headers 0 events
  unfolding dispatch_request
  dispatch_request-Headers client request w e f =
      rw (ap length f) at (retry_loop-Counted number_of_retries client request.body request w e)
