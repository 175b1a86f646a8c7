-- ===== src/Controller/Creation.antt =====
-- `NewController` of controller.go: the version of the API is taken from the URL or tried out, the
-- server is asked for its capabilities, and the credentials are checked.
pub mod Laws
use gomaasapi.Prelude.{
  ℕ, Bool, true, false, Option, none, some, List, [], ◌∷◌, ◌++◌, if◌then◌else◌, Result, ok, err,
  Action, ◌>>=◌, return, lift,
}
use gomaasapi.Strings.{Text, codes, join}
use gomaasapi.Url.{split_versioned_url, add_api_version_to_url}
use gomaasapi.Errors.{
  other_error, is_not_valid, new_unexpected_error, new_unsupported_version_error,
  is_unsupported_version_error, wrap_with_unsupported_version_error,
  wrap_with_deserialization_error,
}
use gomaasapi.Value.{Value}
use gomaasapi.Http.{Platform, World}
use gomaasapi.Http.Dispatch.{Client}
use gomaasapi.Http.Requests.{new_authenticated_client}
use gomaasapi.Versions.{Version}
use gomaasapi.Schema.{Juju}
use gomaasapi.Reading.{Fault, returned, panicked}
use gomaasapi.Controller.{Controller, get}
use gomaasapi.Controller.Answers.{Reading, failing, retraced}
use gomaasapi.Controller.Capabilities.{capabilities_of}
use gomaasapi.Controller.Operations.{
  indicates_unsupported_version, check_creds, supported_version, supported_api_versions,
}

-- ControllerArgs
pub record ControllerArgs : Type 0 where
  pub base_url : Text
  pub api_key : Text

module _ (P : Platform) (J : Juju P) where
  open P use {Err}

  no_version_info : Err → Err
  no_version_info e =
      if indicates_unsupported_version P (some e)
      then wrap_with_unsupported_version_error P.errors e
      else P.errors.trace e

  -- readAPIVersionInfo
  unfoldable pub read_api_version_info : Controller → Reading P (List Text)
  unfolding no_version_info
  read_api_version_info c = do
    parsed ← failing P no_version_info (get P c (codes "version"))
    lift (capabilities_of P J parsed)

  -- An error of NewAuthenticatedClient: a key that is not valid, or an unexpected error.
  client_error : Err → Err
  client_error e =
      if is_not_valid P.errors e then P.errors.trace e else new_unexpected_error P.errors e

  unread : Client → Version → Controller
  unread client api_version = record {
    client = client;
    api_version = api_version;
    capabilities = [];
  }

  greeted : Controller → Reading P Controller
  greeted c = do
    capabilities ← retraced P (read_api_version_info c)
    _ ← failing P P.errors.trace (check_creds P c)
    return (record c { capabilities = capabilities })

  connect : Version → Result Err Client → Reading P Controller
  connect api_version (err e) w = (err (returned (client_error e)), w)
  connect api_version (ok client) w = greeted (unread client api_version) w

  bad_version : Text → Err
  bad_version api_version =
      P.errors.new
        (other_error (codes "bad version defined in supported versions: " ++ P.quote api_version))

  -- newControllerWithVersion
  unfoldable pub new_controller_with_version : Text → Text → Text → Reading P Controller
  unfolding connect greeted unread client_error bad_version
  new_controller_with_version base_url api_version api_key w =
      elim (J.parse_major_minor api_version) [
        | err e ↦ (err (returned (bad_version api_version)), w)
        | ok number ↦
            connect number
              (new_authenticated_client P (add_api_version_to_url base_url api_version) api_key) w
      ]

  none_supported : ControllerArgs → Err
  none_supported args = new_unsupported_version_error P.errors (
      codes "controller at "
      ++ args.base_url
      ++ codes " does not support any of ["
      ++ join supported_api_versions (codes " ")
      ++ codes "]")

  -- The loop over the versions.
  try_versions : ControllerArgs → List Text → Reading P Controller
  try_versions args [] w = (err (returned (none_supported args)), w)
  try_versions args (v ∷ versions) w =
      let (result, w') = new_controller_with_version args.base_url v args.api_key w in
      let others = try_versions args versions w' in
      elim result [
        | ok c ↦ (ok c, w')
        | err panicked ↦ (err panicked, w')
        | err (returned e) ↦
            if is_unsupported_version_error P.errors e
            then others
            else (err (returned (P.errors.trace e)), w')
      ]

  -- newControllerUnknownVersion
  unfoldable pub new_controller_unknown_version : ControllerArgs → Reading P Controller
  unfolding try_versions none_supported
  new_controller_unknown_version args = try_versions args supported_api_versions

  -- NewController
  unfoldable pub new_controller : ControllerArgs → Reading P Controller
  new_controller args w =
      let (base, api_version, includes_version) = split_versioned_url args.base_url in
      if includes_version
      then if supported_version api_version
        then new_controller_with_version base api_version args.api_key w
        else (
          err (returned (new_unsupported_version_error P.errors (codes "version " ++ api_version))),
          w,
        )
      else new_controller_unknown_version args w
