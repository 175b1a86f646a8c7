-- ===== src/Errors/Translate.antt =====
-- The translation of a failed request that nearly every operation of the API types makes: a
-- `ServerError` with a status that the operation lists becomes an error of errors.go, with the
-- server's message, and any other error an `UnexpectedError`.
use gomaasapi.Prelude.{ℕ, Option, none, some, List, [], ◌∷◌, if◌then◌else◌, ◌==◌, nat_eq}
use gomaasapi.Strings.{Text}
use gomaasapi.Errors.{
  JujuErrors, ServerError, new_no_match_error, new_bad_request_error, new_permission_error,
  new_cannot_complete_error, new_unexpected_error, get_server_error,
}

-- The kind of error that a case of the `switch` makes.
pub data Kind : Type 0 where
  no_match bad_request permission cannot_complete : Kind

-- The cases of a `switch svrErr.StatusCode`, in order.
abbrev pub Cases : Type 0
Cases = List (ℕ × Kind)

module _ (E : JujuErrors) where
  open E use {Err, wrap}

  unfoldable pub new_error : Kind → Text → Err
  unfolding new_no_match_error new_bad_request_error new_permission_error new_cannot_complete_error
  new_error no_match message = new_no_match_error E message
  new_error bad_request message = new_bad_request_error E message
  new_error permission message = new_permission_error E message
  new_error cannot_complete message = new_cannot_complete_error E message

  unfoldable pub switch_status : Cases → Err → ServerError → Err
  unfolding new_unexpected_error
  switch_status [] e s = new_unexpected_error E e
  switch_status ((status, kind) ∷ cases) e s =
      if s.status_code == status
      then wrap e (new_error kind s.body_message)
      else switch_status cases e s

  translate_server : Cases → Err → Option ServerError → Err
  translate_server cases e none = new_unexpected_error E e
  translate_server cases e (some s) = switch_status cases e s

  unfoldable pub translate : Cases → Err → Err
  unfolding translate_server get_server_error
  translate cases e = translate_server cases e (get_server_error E e)
