-- ===== src/Errors.antt =====
-- errors.go, and `ServerError` of client.go. The package builds on github.com/juju/errors, which is
-- the parameter `JujuErrors`: an error value may be traced, annotated and wrapped, and its cause is
-- the value that the program looks at.
pub mod Laws
pub mod Translate
use gomaasapi.Prelude.{
  ℕ, nat_eq, contains, ◌≡◌, Bool, true, false, Option, none, some, List, ◌++◌, ℤ,
}
use gomaasapi.Strings.{Text, codes}

-- ServerError
pub record ServerError : Type 0 where
  pub text : Text
  pub status_code : ℕ
  -- http.Header, by canonical name
  pub header : List (Text × List Text)
  pub body_message : Text

-- The error values that the program makes or tells apart by their dynamic type.
pub data ErrorValue : Type 0 where
  no_match_error : Text → ErrorValue
  unexpected_error : Text → ErrorValue
  unsupported_version_error : Text → ErrorValue
  deserialization_error : Text → ErrorValue
  bad_request_error : Text → ErrorValue
  permission_error : Text → ErrorValue
  cannot_complete_error : Text → ErrorValue
  server_error : ServerError → ErrorValue
  -- NotValid of juju/errors
  not_valid : Text → ErrorValue
  -- *json.SyntaxError, with its offset
  syntax_error : ℤ → Text → ErrorValue
  -- *json.InvalidUTF8Error
  invalid_utf8_error : Text → ErrorValue
  other_error : Text → ErrorValue

-- What the program uses of github.com/juju/errors.
pub record JujuErrors : Type 1 where
  pub Err : Type 0
  pub new : ErrorValue → Err
  pub trace : Err → Err
  pub annotate : Err → Text → Err
  pub wrap : Err → Err → Err
  pub cause : Err → ErrorValue
  pub error_text : Err → Text
  pub cause-new : (v : ErrorValue) → cause (new v) ≡ v
  pub cause-trace : (e : Err) → cause (trace e) ≡ cause e
  pub cause-annotate : (e : Err) (message : Text) → cause (annotate e message) ≡ cause e
  pub cause-wrap : (e f : Err) → cause (wrap e f) ≡ cause f
  -- The message of `NewErr(format)`, which is fmt.Sprintf of the format alone: a text without a verb
  -- stays as it is.
  pub formatted : Text → Text
  pub formatted-plain : (s : Text) → contains s b'%' ≡ false → formatted s ≡ s

module _ (E : JujuErrors) where
  open E use {Err, new, wrap, cause, error_text, formatted}

  -- NewNoMatchError
  unfoldable pub new_no_match_error : Text → Err
  new_no_match_error message = new (no_match_error (formatted message))

  -- NewUnexpectedError
  unfoldable pub new_unexpected_error : Err → Err
  new_unexpected_error e = wrap e (new (unexpected_error (codes "unexpected: " ++ error_text e)))

  -- NewUnsupportedVersionError, with its message formatted
  unfoldable pub new_unsupported_version_error : Text → Err
  new_unsupported_version_error message = new (unsupported_version_error message)

  -- WrapWithUnsupportedVersionError
  unfoldable pub wrap_with_unsupported_version_error : Err → Err
  wrap_with_unsupported_version_error e =
      wrap e (new (unsupported_version_error (codes "unsupported version: " ++ error_text e)))

  -- NewDeserializationError, with its message formatted
  unfoldable pub new_deserialization_error : Text → Err
  new_deserialization_error message = new (deserialization_error message)

  -- WrapWithDeserializationError
  unfoldable pub wrap_with_deserialization_error : Err → Text → Err
  wrap_with_deserialization_error e message =
      wrap e (new (deserialization_error (formatted (message ++ codes ": " ++ error_text e))))

  -- NewBadRequestError
  unfoldable pub new_bad_request_error : Text → Err
  new_bad_request_error message = new (bad_request_error (formatted message))

  -- NewPermissionError
  unfoldable pub new_permission_error : Text → Err
  new_permission_error message = new (permission_error (formatted message))

  -- NewCannotCompleteError
  unfoldable pub new_cannot_complete_error : Text → Err
  new_cannot_complete_error message = new (cannot_complete_error (formatted message))

  no_match_value : ErrorValue → Bool
  no_match_value (no_match_error m) = true
  no_match_value _ = false

  -- IsNoMatchError
  unfoldable pub is_no_match_error : Err → Bool
  unfolding no_match_value
  is_no_match_error e = no_match_value (cause e)

  unexpected_value : ErrorValue → Bool
  unexpected_value (unexpected_error m) = true
  unexpected_value _ = false

  -- IsUnexpectedError
  unfoldable pub is_unexpected_error : Err → Bool
  unfolding unexpected_value
  is_unexpected_error e = unexpected_value (cause e)

  unsupported_version_value : ErrorValue → Bool
  unsupported_version_value (unsupported_version_error m) = true
  unsupported_version_value _ = false

  -- IsUnsupportedVersionError
  unfoldable pub is_unsupported_version_error : Err → Bool
  unfolding unsupported_version_value
  is_unsupported_version_error e = unsupported_version_value (cause e)

  deserialization_value : ErrorValue → Bool
  deserialization_value (deserialization_error m) = true
  deserialization_value _ = false

  -- IsDeserializationError
  unfoldable pub is_deserialization_error : Err → Bool
  unfolding deserialization_value
  is_deserialization_error e = deserialization_value (cause e)

  bad_request_value : ErrorValue → Bool
  bad_request_value (bad_request_error m) = true
  bad_request_value _ = false

  -- IsBadRequestError
  unfoldable pub is_bad_request_error : Err → Bool
  unfolding bad_request_value
  is_bad_request_error e = bad_request_value (cause e)

  permission_value : ErrorValue → Bool
  permission_value (permission_error m) = true
  permission_value _ = false

  -- IsPermissionError
  unfoldable pub is_permission_error : Err → Bool
  unfolding permission_value
  is_permission_error e = permission_value (cause e)

  cannot_complete_value : ErrorValue → Bool
  cannot_complete_value (cannot_complete_error m) = true
  cannot_complete_value _ = false

  -- IsCannotCompleteError
  unfoldable pub is_cannot_complete_error : Err → Bool
  unfolding cannot_complete_value
  is_cannot_complete_error e = cannot_complete_value (cause e)

  not_valid_value : ErrorValue → Bool
  not_valid_value (not_valid m) = true
  not_valid_value _ = false

  -- errors.IsNotValid
  unfoldable pub is_not_valid : Err → Bool
  unfolding not_valid_value
  is_not_valid e = not_valid_value (cause e)

  server_error_value : ErrorValue → Option ServerError
  server_error_value (server_error s) = some s
  server_error_value _ = none

  -- GetServerError
  unfoldable pub get_server_error : Err → Option ServerError
  unfolding server_error_value
  get_server_error e = server_error_value (cause e)
