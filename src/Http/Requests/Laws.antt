-- ===== src/Http/Requests/Laws.antt =====
-- What the requests of client.go do with their parameters, and which API keys make a client.
use gomaasapi.Prelude.{
  ◌≡◌, refl, ◌≢◌, true, some, List, [], ◌∷◌, ◌++◌, arith, ◌==◌, nat_eq, list_eq, ok, err, length,
  if_elim,
}
use gomaasapi.Strings.{Text, codes, split}
use gomaasapi.Strings.Split.{Lacks, occurrences, length-split, split-append, split-Lacks}
use gomaasapi.Params.{Values, get, set, first_value}
use gomaasapi.Params.Laws.{values_of-set}
use gomaasapi.Errors.{other_error, is_not_valid}
use gomaasapi.Url.{ensure_trailing_slash}
use gomaasapi.Http.{Platform, Url, World}
use gomaasapi.Http.Sign.{plain_text_signer}
use gomaasapi.Http.Dispatch.{Client, failed}
use gomaasapi.Http.Requests.{
  op, with_operation, caller_values, client_get, reserved_message, new_authenticated_client,
  client_of_parts,
}

get-set : (key value : Text) (p : Values) → get key (set key value p) ≡ value
unfolding get first_value
get-set key value p = rw values_of-set (ground (arith))

module _ (P : Platform) where
  -- The operation is reserved: GET refuses a map that holds one.
  reserved : Values → P.Err
  reserved p = P.errors.new (other_error (reserved_message P (get op p)))

  client_get-reserved :
      (client : Client) (uri : Url) (operation : Text) (p : Values) (w : World P)
      → get op p ≢ []
      → client_get P client uri operation (some p) w ≡ (failed P (reserved p), some p, w)
  unfolding client_get reserved
  client_get-reserved client uri operation p w h = ground arith

  -- The map after an accepted call.
  client_get_values :
      (client : Client) (uri : Url) (operation : Text) (p : Values) (w : World P)
      → get op p ≡ []
      → (client_get P client uri operation (some p) w).1 ≡ some (with_operation operation p)
  unfolding client_get caller_values
  client_get_values client uri operation p w h = ground arith

  get-with_operation :
      (operation : Text) (p : Values) → operation ≢ [] → get op (with_operation operation p) ≢ []
  unfolding with_operation
  get-with_operation operation p h =
      if_elim (λ q. get op q ≢ []) (operation == []) _ _ (λ e. absurd (ground arith))
        (λ _. rw get-set h)

  -- A map of parameters serves one GET with an operation: the call leaves `op` in the caller's map,
  -- so that a second call with this map fails without sending a request, whatever the two calls ask
  -- for and whatever the server answers.
  pub client_get_twice :
      (client : Client) (uri uri' : Url) (operation operation' : Text) (p : Values) (w : World P)
      → operation ≢ []
      → let (_, p', w') = client_get P client uri operation (some p) w in
        (e : P.Err) × (client_get P client uri' operation' p' w' ≡ (failed P e, p', w'))
  client_get_twice client uri uri' operation operation' p w h = elim (list_eq.dec (get op p) []) [
    | yes e ↦ rw (client_get_values client uri operation p w e) (
      reserved (with_operation operation p),
      client_get-reserved client uri' operation' (with_operation operation p) _
          (get-with_operation operation p h),
    )
    | no n ↦
        rw (client_get-reserved client uri operation p w n)
          (reserved p, client_get-reserved client uri' operation' p w n)
  ]

  -- A key of three parts without colons makes a client that signs with the first as the consumer key,
  -- the second as the token key, the third as the token secret and an empty consumer secret, if the
  -- URL, with a slash at its end, parses.
  pub new_authenticated_client_lem :
      (versioned_url consumer key secret : Text) (url : Url)
      → Lacks b':' consumer
      → Lacks b':' key
      → Lacks b':' secret
      → P.parse_url (ensure_trailing_slash versioned_url) ≡ ok url
      → new_authenticated_client P versioned_url (consumer ++ b':' ∷ (key ++ b':' ∷ secret))
        ≡ ok (record {
          api_url = url;
          signer =
              plain_text_signer
                (record {
                  consumer_key = consumer;
                  consumer_secret = [];
                  token_key = key;
                  token_secret = secret;
                })
                (codes "MAAS API");
        })
  unfolding new_authenticated_client
  new_authenticated_client_lem versioned_url consumer key secret url hc hk hs e =
      rw
        (
          split-append b':' consumer _ hc,
          split-append b':' key secret hk,
          split-Lacks b':' secret hs,
        )
        (rw e)

  client_of_parts_invalid :
      (versioned_url api_key : Text) (parts : List Text)
      → length parts ≢ 3
      → (e : P.Err) × (client_of_parts P versioned_url api_key parts ≡ err e)
        × (is_not_valid P.errors e ≡ true)
  unfolding client_of_parts is_not_valid
  client_of_parts_invalid versioned_url api_key [] h = (_, refl, rw P.errors.cause-new)
  client_of_parts_invalid versioned_url api_key (a ∷ []) h = (_, refl, rw P.errors.cause-new)
  client_of_parts_invalid versioned_url api_key (a ∷ b ∷ []) h = (_, refl, rw P.errors.cause-new)
  client_of_parts_invalid versioned_url api_key (a ∷ b ∷ c ∷ []) h = absurd (h refl)
  client_of_parts_invalid versioned_url api_key (a ∷ b ∷ c ∷ d ∷ r) h =
      (_, refl, rw P.errors.cause-new)

  -- A key that does not hold exactly two colons is refused as not valid, whatever the URL is.
  pub new_authenticated_client_invalid :
      (versioned_url api_key : Text)
      → occurrences b':' api_key ≢ 2
      → (e : P.Err) × (new_authenticated_client P versioned_url api_key ≡ err e)
        × (is_not_valid P.errors e ≡ true)
  unfolding new_authenticated_client
  new_authenticated_client_invalid versioned_url api_key h =
      client_of_parts_invalid versioned_url api_key (split api_key b':')
        (λ e. h (omega (arith, length-split api_key b':')))
