-- ===== src/Errors/Laws.antt =====
-- What callers can tell of an error after it was traced, annotated, wrapped or translated.
use gomaasapi.Prelude.{
  contains, Bool-cases, ap, ◌∙◌, ℕ, ◌≡◌, refl, true, Option, none, some, [], ◌∷◌, ◌++◌, arith,
  if◌then◌else◌, ◌==◌, nat_eq, Option-cases, inl, inr,
}
use gomaasapi.Strings.{Text, codes}
use gomaasapi.Errors.{
  JujuErrors, ErrorValue, ServerError, no_match_error, bad_request_error, permission_error,
  cannot_complete_error, unexpected_error, is_no_match_error, is_unexpected_error,
  is_unsupported_version_error, is_deserialization_error, is_bad_request_error, is_permission_error,
  is_cannot_complete_error, is_not_valid, get_server_error, new_unexpected_error,
  server_error_value,
}
use gomaasapi.Errors.Translate.{
  Kind, no_match, bad_request, permission, cannot_complete, Cases, new_error, switch_status,
  translate,
}

-- The value that an error of a kind holds.
abbrev pub kind_value : Kind → Text → ErrorValue
kind_value no_match message = no_match_error message
kind_value bad_request message = bad_request_error message
kind_value permission message = permission_error message
kind_value cannot_complete message = cannot_complete_error message

-- The first case for a status.
unfoldable pub case_of : ℕ → Cases → Option Kind
case_of status [] = none
case_of status ((s, kind) ∷ cases) = if status == s then some kind else case_of status cases

module _ (E : JujuErrors) where
  open E use {Err, trace, annotate, wrap, cause}

  -- The message that an error shows, of the one that it is made with: this is a format, and a `%` in
  -- it has no argument to stand for.
  abbrev pub shown : Text → Text
  shown message = if contains message b'%' then E.formatted message else message

  formatted-shown : (message : Text) → E.formatted message ≡ shown message
  formatted-shown message = elim (Bool-cases (contains message b'%')) [
    | inl e ↦ rw e refl
    | inr e ↦ rw e (E.formatted-plain message e)
  ]

  -- The eight tests of an error's kind, and the server error that it holds.
  pub record Seen (e f : Err) : Type 0 where
    pub no_match : is_no_match_error E e ≡ is_no_match_error E f
    pub unexpected : is_unexpected_error E e ≡ is_unexpected_error E f
    pub unsupported_version : is_unsupported_version_error E e ≡ is_unsupported_version_error E f
    pub deserialization : is_deserialization_error E e ≡ is_deserialization_error E f
    pub bad_request : is_bad_request_error E e ≡ is_bad_request_error E f
    pub permission : is_permission_error E e ≡ is_permission_error E f
    pub cannot_complete : is_cannot_complete_error E e ≡ is_cannot_complete_error E f
    pub not_valid : is_not_valid E e ≡ is_not_valid E f
    pub server : get_server_error E e ≡ get_server_error E f

  pub Seen-cause : (e f : Err) → cause e ≡ cause f → Seen e f
  unfolding is_no_match_error is_unexpected_error is_unsupported_version_error
      is_deserialization_error is_bad_request_error is_permission_error is_cannot_complete_error
      is_not_valid get_server_error
  Seen-cause e f p = record {
    no_match = rw p;
    unexpected = rw p;
    unsupported_version = rw p;
    deserialization = rw p;
    bad_request = rw p;
    permission = rw p;
    cannot_complete = rw p;
    not_valid = rw p;
    server = rw p;
  }

  -- Tracing and annotating an error change no answer of the tests, and a wrapped error answers as
  -- the error that it was wrapped in: the first one's kind can no longer be seen.
  pub tests-trace :
      (e f : Err) (message : Text)
      → Seen (trace e) e × Seen (annotate e message) e × Seen (wrap e f) f
  tests-trace e f message = (
    Seen-cause _ _ (E.cause-trace e),
    Seen-cause _ _ (E.cause-annotate e message),
    Seen-cause _ _ (E.cause-wrap e f),
  )

  cause-new_error :
      (k : Kind) (message : Text) → cause (new_error E k message) ≡ kind_value k (shown message)
  unfolding new_error
  cause-new_error no_match message = E.cause-new _ ∙ ap no_match_error (formatted-shown message)
  cause-new_error bad_request message =
      E.cause-new _ ∙ ap bad_request_error (formatted-shown message)
  cause-new_error permission message = E.cause-new _ ∙ ap permission_error (formatted-shown message)
  cause-new_error cannot_complete message =
      E.cause-new _ ∙ ap cannot_complete_error (formatted-shown message)

  pub is_unexpected-new_unexpected_error :
      (e : Err) → is_unexpected_error E (new_unexpected_error E e) ≡ true
  unfolding is_unexpected_error new_unexpected_error
  is_unexpected-new_unexpected_error e = rw (E.cause-wrap, E.cause-new)

  unexpected_cause : Err → ErrorValue
  unexpected_cause e = unexpected_error (codes "unexpected: " ++ E.error_text e)

  value_of_case : Err → ServerError → Option Kind → ErrorValue
  value_of_case e s none = unexpected_cause e
  value_of_case e s (some k) = kind_value k (shown s.body_message)

  -- The value that the caller should find: of the kind that the status is listed with, with the
  -- server's message as it is shown, or an unexpected error with the text of the first one.
  unfoldable pub translated : Cases → Err → Option ServerError → ErrorValue
  unfolding value_of_case unexpected_cause case_of
  translated cases e none = unexpected_cause e
  translated cases e (some s) = value_of_case e s (case_of s.status_code cases)

  cause-new_unexpected_error : (e : Err) → cause (new_unexpected_error E e) ≡ unexpected_cause e
  unfolding new_unexpected_error unexpected_cause
  cause-new_unexpected_error e = rw (E.cause-wrap, E.cause-new)

  cause-switch_status :
      (cases : Cases) (e : Err) (s : ServerError)
      → cause (switch_status E cases e s) ≡ value_of_case e s (case_of s.status_code cases)
  unfolding switch_status case_of value_of_case
  cause-switch_status [] e s = cause-new_unexpected_error e
  cause-switch_status ((status, kind) ∷ cases) e s = ground (
    arith,
    cause-switch_status cases e s,
    E.cause-wrap e (new_error E kind s.body_message),
    cause-new_error kind s.body_message,
  )

  cause-translate :
      (cases : Cases) (e : Err)
      → cause (translate E cases e) ≡ translated cases e (get_server_error E e)
  unfolding translate translated get_server_error
  cause-translate cases e = elim (Option-cases (get_server_error E e)) [
    | inl p ↦ rw p (cause-new_unexpected_error e)
    | inr (s, p) ↦ rw p (cause-switch_status cases e s)
  ]

  server_error_value-translated :
      (cases : Cases) (e : Err) (s : Option ServerError)
      → server_error_value E (translated cases e s) ≡ none
  unfolding translated server_error_value
  server_error_value-translated cases e none = refl
  server_error_value-translated cases e (some s) = go (case_of s.status_code cases)
    where
      go : (k : Option Kind) → server_error_value E (value_of_case e s k) ≡ none
      go none = refl
      go (some no_match) = refl
      go (some bad_request) = refl
      go (some permission) = refl
      go (some cannot_complete) = refl

  -- A failed request whose error is a server error with a listed status becomes an error of the
  -- kind that the list first gives for it, with the server's message, which is formatted if it holds
  -- a `%`; every other error becomes an unexpected error that quotes it. In no case is the server
  -- error itself still to be seen.
  pub translate_lem :
      (cases : Cases) (e : Err)
      → (cause (translate E cases e) ≡ translated cases e (get_server_error E e))
        × (get_server_error E (translate E cases e) ≡ none)
  unfolding get_server_error
  translate_lem cases e = (
    cause-translate cases e,
    rw (cause-translate cases e) (server_error_value-translated cases e _),
  )
