-- ===== src/Controller/Creation/Laws.antt =====
-- Controllers that are refused before any request.
use gomaasapi.Prelude.{◌++◌, ◌≡◌, ◌∙◌, ◌≢◌, true, false, ok, err}
use gomaasapi.Strings.{Text, codes}
use gomaasapi.Strings.Split.{occurrences}
use gomaasapi.Url.{add_api_version_to_url}
use gomaasapi.Url.Pattern.{Matches}
use gomaasapi.Url.Versioned.{split_versioned_url_iff}
use gomaasapi.Errors.{is_not_valid, new_unsupported_version_error, is_unsupported_version_error}
use gomaasapi.Errors.Laws.{Seen-cause}
use gomaasapi.Http.{Platform, World}
use gomaasapi.Http.Requests.Laws.{new_authenticated_client_invalid}
use gomaasapi.Versions.{Version}
use gomaasapi.Schema.{Juju}
use gomaasapi.Reading.{returned}
use gomaasapi.Controller.Operations.{supported_version}
use gomaasapi.Controller.Creation.{
  ControllerArgs, client_error, connect, new_controller_with_version, new_controller,
}

module _ (P : Platform) (J : Juju P) where
  -- A URL with a version that the program does not support is refused with an "unsupported version"
  -- error, and nothing is sent.
  pub new_controller_unsupported :
      (args : ControllerArgs) (base version : Text) (w : World P)
      → Matches args.base_url base version
      → supported_version version ≡ false
      → (e : P.Err) × (new_controller P J args w ≡ (err (returned e), w))
        × (is_unsupported_version_error P.errors e ≡ true)
  unfolding new_controller is_unsupported_version_error new_unsupported_version_error
  new_controller_unsupported args base version w m h = (
    new_unsupported_version_error P.errors (codes "version " ++ version),
    rw ((split_versioned_url_iff args.base_url base version).1 m, new_controller) (rw h),
    rw P.errors.cause-new,
  )

  -- With a URL that has a supported version, a key that does not hold exactly two colons is refused
  -- as not valid, and nothing is sent.
  new_controller_invalid_key :
      (args : ControllerArgs) (base version : Text) (number : Version) (w : World P)
      → Matches args.base_url base version
      → supported_version version ≡ true
      → J.parse_major_minor version ≡ ok number
      → occurrences b':' args.api_key ≢ 2
      → (e : P.Err) × (new_controller P J args w ≡ (err (returned e), w))
        × (is_not_valid P.errors e ≡ true)
  unfolding new_controller new_controller_with_version connect client_error
  new_controller_invalid_key args base version number w m h n k =
      let (e, refused, invalid) =
        new_authenticated_client_invalid P (add_api_version_to_url base version) args.api_key k in
      (
        P.errors.trace e,
        rw ((split_versioned_url_iff args.base_url base version).1 m, new_controller)
            (rw h (rw (n, new_controller_with_version) (rw (refused, connect) (rw invalid)))),
        (Seen-cause P.errors _ _ (P.errors.cause-trace e)).not_valid ∙ invalid,
      )
