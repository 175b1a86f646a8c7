-- ===== src/Http/Sign.antt =====
-- oauth.go, and the anonymous signer of client.go: how a request gets its Authorization header.
use gomaasapi.Prelude.{
  ℕ, ◌≡◌, refl, ◌+◌, ◌-◌, ◌/◌, ◌%◌, List, [], ◌∷◌, ◌++◌, map, if◌then◌else◌, ltb, Result, ok, err,
}
use gomaasapi.Strings.{Text, codes, join}
use gomaasapi.Strings.Decimal.{itoa}
use gomaasapi.Http.{Platform, HttpRequest}

-- OAuthToken
pub record OauthToken : Type 0 where
  pub consumer_key : Text
  pub consumer_secret : Text
  pub token_key : Text
  pub token_secret : Text

-- The signers: anonSigner, and plainTextOAuthSigner with its token and realm.
pub data Signer : Type 0 where
  anon_signer : Signer
  plain_text_signer : OauthToken → Text → Signer

hex_digit : ℕ → ℕ
hex_digit n = if ltb n 10 then b'0' + n else b'a' + (n - 10)

-- `%16x` of 16 bytes: two digits for each, so that the width pads nothing
hex : List ℕ → Text
hex [] = []
hex (b ∷ bs) = hex_digit (b / 16) ∷ hex_digit (b % 16) ∷ hex bs

-- One parameter of the header: `key="value"`.
auth_item : (Text → Text) → Text × Text → Text
auth_item escape (key, value) = key ++ codes "=\"" ++ escape value ++ codes "\""

module _ (P : Platform) where
  open P use {Err}

  -- generateNonce
  unfoldable pub generate_nonce : P.Net → Result Err Text × P.Net
  unfolding hex hex_digit
  generate_nonce n = elim ((P.rand_read n).0) [
    | ok bytes ↦ (ok (hex bytes), (P.rand_read n).1)
    | err e ↦ (err e, (P.rand_read n).1)
  ]

  -- generateTimestamp
  unfoldable pub generate_timestamp : P.Net → Text × P.Net
  generate_timestamp n = (itoa (P.unix_time n).0, (P.unix_time n).1)

  -- The map of parameters, for a nonce and a time stamp.
  auth_data : OauthToken → Text → Text → Text → List (Text × Text)
  auth_data token realm nonce timestamp =
      (codes "realm", realm)
      ∷ (codes "oauth_consumer_key", token.consumer_key)
      ∷ (codes "oauth_token", token.token_key)
      ∷ (codes "oauth_signature_method", codes "PLAINTEXT")
      ∷ (codes "oauth_signature", token.consumer_secret ++ codes "&" ++ token.token_secret)
      ∷ (codes "oauth_timestamp", timestamp)
      ∷ (codes "oauth_nonce", nonce)
      ∷ (codes "oauth_version", codes "1.0")
      ∷ []

  str_header : List (Text × Text) → Text
  str_header items = codes "OAuth " ++ join (map (auth_item P.query_escape) items) (codes ", ")

  -- The header is added to those that the request has.
  add_authorization : Text → HttpRequest → HttpRequest
  add_authorization header request = record request {
    authorization = request.authorization ++ header ∷ [];
  }

  -- What is done with the nonce: its error is returned, and the request left as it is.
  sign_with :
      OauthToken → Text → HttpRequest → Result Err Text → P.Net → Result Err HttpRequest × P.Net
  sign_with token realm request (err e) n = (err e, n)
  sign_with token realm request (ok nonce) n =
      let (timestamp, n1) = generate_timestamp n in
      let (items, n2) = P.map_order (auth_data token realm nonce timestamp) n1 in
      (ok (add_authorization (str_header items) request), n2)

  -- OAuthSign
  unfoldable pub oauth_sign : Signer → HttpRequest → P.Net → Result Err HttpRequest × P.Net
  unfolding sign_with generate_nonce generate_timestamp auth_data str_header auth_item
      add_authorization
  oauth_sign anon_signer request n = (ok request, n)
  oauth_sign (plain_text_signer token realm) request n =
      sign_with token realm request (generate_nonce n).0 (generate_nonce n).1

  generate_nonce-ok :
      (n : P.Net) (bytes : List ℕ)
      → (P.rand_read n).0 ≡ ok bytes
      → (generate_nonce n).0 ≡ ok (hex bytes)
  unfolding generate_nonce
  generate_nonce-ok n bytes e = rw (e, generate_nonce)

  -- With random bytes at hand a request gets one Authorization header more.
  pub oauth_sign-authorization :
      (token : OauthToken) (realm : Text) (request : HttpRequest) (n : P.Net) (bytes : List ℕ)
      → (P.rand_read n).0 ≡ ok bytes
      → (header : Text) × ((oauth_sign (plain_text_signer token realm) request n).0
          ≡ ok (record request { authorization = request.authorization ++ header ∷ [] }))
  unfolding oauth_sign
  oauth_sign-authorization token realm request n bytes e =
      rw (generate_nonce-ok n bytes e) (_, refl)
