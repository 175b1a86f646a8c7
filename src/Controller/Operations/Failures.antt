-- ===== src/Controller/Operations/Failures.antt =====
-- How the controller's operations end: the error that each status of a failed request becomes, and
-- requests that are not made at all.
use gomaasapi.Prelude.{
  ◌≡◌, ◌∙◌, Option, none, some, ◌++◌, arith, if◌then◌else◌, ◌==◌, nat_eq, list_eq, err, ◌>>=◌,
  caught_err, catch_error_err,
}
use gomaasapi.Strings.{Text, codes}
use gomaasapi.Errors.{
  ErrorValue, ServerError, no_match_error, bad_request_error, permission_error,
  cannot_complete_error, unexpected_error, get_server_error,
}
use gomaasapi.Errors.Translate.{Cases, translate}
use gomaasapi.Errors.Laws.{shown, case_of, translated, translate_lem, Seen-cause}
use gomaasapi.Params.{Values}
use gomaasapi.Url.{ensure_trailing_slash}
use gomaasapi.Http.{Platform, Url, World, path_url}
use gomaasapi.Http.Dispatch.{Reply}
use gomaasapi.Http.Requests.{client_get, client_post, client_delete}
use gomaasapi.Files.{AddFileArgs, add_file_args_validate}
use gomaasapi.Controller.{Controller, next_request_id, post, get_op, delete, delete_result, traced}
use gomaasapi.Controller.Operations.{
  ReleaseMachinesArgs, release_cases, creds_cases, delete_cases, release_params, release_machines,
  check_creds, add_file, delete_resource,
}

module _ (P : Platform) where
  open P use {Err}

  -- What is left of an error that was traced, once or twice: the server error in it.
  traced-server :
      (e : Err)
      → (get_server_error P.errors (P.errors.trace e) ≡ get_server_error P.errors e)
        × (get_server_error P.errors (P.errors.trace (P.errors.trace e))
            ≡ get_server_error P.errors e)
  traced-server e =
      let once = (Seen-cause P.errors _ _ (P.errors.cause-trace e)).server in
      (once, (Seen-cause P.errors _ _ (P.errors.cause-trace (P.errors.trace e))).server ∙ once)

  translate-cause :
      (cases : Cases) (e f : Err) (s : ServerError)
      → get_server_error P.errors f ≡ get_server_error P.errors e
      → get_server_error P.errors e ≡ some s
      → P.errors.cause (translate P.errors cases f) ≡ translated P.errors cases f (some s)
  translate-cause cases e f s p q = (translate_lem P.errors cases f).0 ∙ rw (p ∙ q)

  -- The message of an unexpected error.
  abbrev pub unexpected : Err → ErrorValue
  unexpected e = unexpected_error (codes "unexpected: " ++ P.errors.error_text e)

  module _ (c : Controller) (w : World P) where
    -- The answer to the request that an operation makes.
    abbrev pub release_request : ReleaseMachinesArgs → Reply P × Url × World P
    release_request args =
        client_post P c.client (path_url (ensure_trailing_slash (codes "machines")))
          (codes "release") (release_params P c args) none (next_request_id P w)

    post_failed :
        (path op : Text) (params : Values) (e : Err)
        → let (reply, _, w') =
            client_post P c.client
              (path_url (ensure_trailing_slash path))
              op
              params
              none
              (next_request_id P w) in
          (reply.error ≡ some e
            → post P c path op params w ≡ (err (P.errors.trace (P.errors.trace e)), w'))
    unfolding post
    post_failed path op params e h = rw (h, traced)

    -- `ReleaseMachines`, where its request fails with a server error, fails: with a bad
    -- request error at 400, a permission error at 403 and a "cannot complete" error at 409, each
    -- with the body of the answer for its message, formatted if it holds a `%`, and with an
    -- unexpected error at any other status.
    pub release_machines_failed :
        (args : ReleaseMachinesArgs) (e : Err) (s : ServerError)
        → (release_request args).0.error ≡ some e
        → get_server_error P.errors e ≡ some s
        → (f : Err) × (release_machines P c args w ≡ (err f, (release_request args).2))
          × (P.errors.cause f ≡ (
              if s.status_code == 400
              then bad_request_error (shown P.errors s.body_message)
              else if s.status_code == 403
              then permission_error (shown P.errors s.body_message)
              else if s.status_code == 409
              then cannot_complete_error (shown P.errors s.body_message)
              else unexpected (P.errors.trace (P.errors.trace e))))
    unfolding release_machines translated case_of
    release_machines_failed args e s failed found =
        let two = P.errors.trace (P.errors.trace e) in
        (
          translate P.errors release_cases two,
          caught_err (translate P.errors release_cases)
              (post P c (codes "machines") (codes "release") (release_params P c args)) w _ two
              (post_failed (codes "machines") (codes "release") (release_params P c args) e failed),
          translate-cause release_cases e two s (traced-server e).1 found ∙ ground arith,
        )

    get_failed :
        (path op : Text) (e : Err)
        → let (reply, _, w') =
            client_get P c.client
              (path_url (ensure_trailing_slash path))
              op
              none
              (next_request_id P w) in
          (reply.error ≡ some e
            → get_op P c path op w ≡ (err (P.errors.trace (P.errors.trace e)), w'))
    unfolding get_op
    get_failed path op e h = rw (h, traced)

    abbrev pub whoami_request : Reply P × Option Values × World P
    whoami_request =
        client_get P c.client (path_url (ensure_trailing_slash (codes "users"))) (codes "whoami")
          none (next_request_id P w)

    -- Where the request of `checkCreds` fails with a server error, the check reports a permission
    -- error at 401, and an unexpected error at any other status.
    pub check_creds_failed :
        (e : Err) (s : ServerError)
        → whoami_request.0.error ≡ some e
        → get_server_error P.errors e ≡ some s
        → (f : Err) × (check_creds P c w ≡ (err f, whoami_request.2))
          × (P.errors.cause f ≡ (
              if s.status_code == 401
              then permission_error (shown P.errors s.body_message)
              else unexpected (P.errors.trace (P.errors.trace e))))
    unfolding check_creds translated case_of
    check_creds_failed e s failed found =
        let two = P.errors.trace (P.errors.trace e) in
        (
          translate P.errors creds_cases two,
          caught_err (translate P.errors creds_cases) (get_op P c (codes "users") (codes "whoami"))
              w _ two (get_failed (codes "users") (codes "whoami") e failed),
          translate-cause creds_cases e two s (traced-server e).1 found ∙ ground arith,
        )

    delete_failed :
        (path : Text) (e : Err)
        → let (error, w') =
            client_delete P c.client
              (path_url (ensure_trailing_slash path))
              (next_request_id P w) in
          (error ≡ some e → delete P c path w ≡ (err (P.errors.trace e), w'))
    unfolding delete
    delete_failed path e h = rw (h, delete_result)

    abbrev pub delete_request : Text → Option Err × World P
    delete_request resource_uri =
        client_delete P c.client (path_url (ensure_trailing_slash resource_uri))
          (next_request_id P w)

    -- Where the request fails with a server error, deleting a file, a device or an interface gives a
    -- "no match" error at 404 and a permission error at 403, each with the body of the answer for its
    -- message, formatted if it holds a `%`, and an unexpected error at any other status.
    pub delete_resource_failed :
        (resource_uri : Text) (e : Err) (s : ServerError)
        → (delete_request resource_uri).0 ≡ some e
        → get_server_error P.errors e ≡ some s
        → (f : Err) × (delete_resource P c resource_uri w
            ≡ (err f, (delete_request resource_uri).1))
          × (P.errors.cause f ≡ (
              if s.status_code == 404
              then no_match_error (shown P.errors s.body_message)
              else if s.status_code == 403
              then permission_error (shown P.errors s.body_message)
              else unexpected (P.errors.trace e)))
    unfolding delete_resource translated case_of
    delete_resource_failed resource_uri e s failed found =
        let one = P.errors.trace e in
        (
          translate P.errors delete_cases one,
          catch_error_err (translate P.errors delete_cases) (delete P c resource_uri) w _ one
              (delete_failed resource_uri e failed),
          translate-cause delete_cases e one s (traced-server e).0 found ∙ ground arith,
        )

    -- With arguments that do not pass validation `AddFile` returns the error of the validation, sends
    -- nothing and changes nothing.
    add_file_invalid :
        (args : AddFileArgs Err) (e : Err)
        → add_file_args_validate P.errors P.quote args ≡ some e
        → add_file P c args w ≡ (err (P.errors.trace e), w)
    unfolding add_file
    add_file_invalid args e h = rw (h, add_file, ◌>>=◌)
