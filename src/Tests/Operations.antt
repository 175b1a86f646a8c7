-- ===== src/Tests/Operations.antt =====
-- Operations of the controller, at a server that refuses.
use gomaasapi.Prelude.{
  List, ℕ, ◌≡◌, refl, ◌≢◌, ◌↔◌, false, none, some, [], ◌∷◌, ◌++◌, nat_eq, list_eq, err, pos,
}
use gomaasapi.Strings.{Text, codes}
use gomaasapi.Strings.Split.{Lacks}
use gomaasapi.Strings.Decimal.{itoa}
use gomaasapi.Params.{values_of, first_value, get}
use gomaasapi.Errors.{
  ErrorValue, ServerError, server_error, not_valid, get_server_error, cannot_complete_error,
  no_match_error,
}
use gomaasapi.Errors.Translate.{translate, switch_status, new_error}
use gomaasapi.Errors.Laws.{translated, translate_lem}
use gomaasapi.Http.{World}
use gomaasapi.Http.Sign.{oauth_sign}
use gomaasapi.Http.Dispatch.{dispatch_request}
use gomaasapi.Http.Requests.{client_get, client_post, client_delete}
use gomaasapi.Files.{AddFileArgs, add_file_args_validate}
use gomaasapi.Files.Laws.{OneSource, add_file_args_validate_iff}
use gomaasapi.Controller.{Controller, next_request_id}
use gomaasapi.Controller.Operations.{
  ReleaseMachinesArgs, release_machines, delete_resource, delete_cases,
}
use gomaasapi.Controller.Operations.Failures.{
  release_machines_failed, delete_resource_failed, release_request, whoami_request, delete_request,
}
use gomaasapi.Allocate.{AllocateMachineArgs, allocate_machine_args_validate}
use gomaasapi.Allocate.Validate.{WellFormed, allocate_machine_args_validate_iff}
use gomaasapi.Tests.Bench.{plain_errors, bench, world, list_set, client, answered}

abbrev controller : Controller
controller = record {
  client = client;
  api_version = record { major = 2; minor = 0 };
  capabilities = [];
}

abbrev refusing : ℕ → World bench
refusing status = world (answered status [] (codes "no") ∷ [])

-- The error of an answer with this status.
abbrev refused : ℕ → ServerError
refused status = record {
  text = codes "ServerError: " ++ itoa (pos status) ++ codes " (" ++ codes "no" ++ codes ")";
  status_code = status;
  header = [];
  body_message = codes "no";
}

abbrev two_machines : ReleaseMachinesArgs
two_machines = record { system_ids = codes "m1" ∷ codes "m2" ∷ []; comment = codes "done" }

translate_lem_example :
    (plain_errors.cause (translate plain_errors delete_cases (server_error (refused 404)))
      ≡ translated plain_errors delete_cases
          (server_error (refused 404))
          (get_server_error plain_errors (server_error (refused 404))))
    × (get_server_error plain_errors
          (translate plain_errors delete_cases (server_error (refused 404)))
        ≡ none)
translate_lem_example = translate_lem plain_errors delete_cases (server_error (refused 404))

-- A listed status becomes its kind of error.
translate_run :
    translate plain_errors delete_cases (server_error (refused 404)) ≡ no_match_error (codes "no")
unfolding translate nat_eq switch_status new_error
translate_run = refl

release_error :
    (release_request bench controller (refusing 409) two_machines).0.error
    ≡ some (server_error (refused 409))
unfolding client_post dispatch_request oauth_sign nat_eq next_request_id
release_error = refl

release_machines_failed_example :
    (f : ErrorValue) × (release_machines bench controller two_machines (refusing 409)
      ≡ (err f, (release_request bench controller (refusing 409) two_machines).2))
    × (f ≡ cannot_complete_error (codes "no"))
unfolding get_server_error nat_eq codes
release_machines_failed_example =
    release_machines_failed bench controller (refusing 409) two_machines
      (server_error (refused 409)) (refused 409) release_error refl

whoami_error :
    (whoami_request bench controller (refusing 401)).0.error ≡ some (server_error (refused 401))
unfolding client_get dispatch_request oauth_sign get values_of first_value list_eq nat_eq
    next_request_id
whoami_error = refl

delete_error :
    (delete_request bench controller (refusing 404) (codes "/files/1")).0
    ≡ some (server_error (refused 404))
unfolding client_delete dispatch_request oauth_sign nat_eq next_request_id
delete_error = refl

delete_resource_failed_example :
    (f : ErrorValue) × (delete_resource bench controller (codes "/files/1") (refusing 404)
      ≡ (err f, (delete_request bench controller (refusing 404) (codes "/files/1")).1))
    × (f ≡ no_match_error (codes "no"))
unfolding get_server_error nat_eq codes
delete_resource_failed_example =
    delete_resource_failed bench controller (refusing 404) (codes "/files/1")
      (server_error (refused 404)) (refused 404) delete_error refl

-- A path for a file name, and a name with content.
abbrev path_args : AddFileArgs ErrorValue
path_args = record {
  filename = codes "a/b";
  content = some (codes "x");
  reader = none;
  length = pos 0;
}

abbrev plain_args : AddFileArgs ErrorValue
plain_args = record {
  filename = codes "a";
  content = some (codes "x");
  reader = none;
  length = pos 0;
}

path_error :
    add_file_args_validate plain_errors (λ s. s) path_args
    ≡ some (not_valid (codes "paths in Filename " ++ codes "a/b"))
unfolding add_file_args_validate codes list_eq nat_eq
path_error = refl

add_file_args_validate_iff_example :
    (add_file_args_validate plain_errors (λ s. s) plain_args ≡ none) ↔ (
      (plain_args.filename ≢ [])
      × Lacks b'/' plain_args.filename
      × OneSource plain_errors plain_args)
add_file_args_validate_iff_example = add_file_args_validate_iff plain_errors (λ s. s) plain_args

-- Constraints with two disks, one of them labelled.
abbrev constraints : AllocateMachineArgs
constraints = record {
  hostname = [];
  system_id = [];
  architecture = codes "amd64";
  min_cpu_count = pos 2;
  min_memory = pos 2048;
  tags = [];
  not_tags = [];
  zone = [];
  pool = [];
  not_in_zone = [];
  not_in_pool = [];
  storage =
      record { label = codes "root"; size = pos 10; tags = codes "ssd" ∷ [] }
      ∷ record { label = []; size = pos 5; tags = [] }
      ∷ [];
  interfaces = record { label = codes "eth0"; space = codes "dmz" } ∷ [];
  not_space = codes "dev" ∷ [];
  agent_name = [];
  comment = [];
  dry_run = false;
}

allocate_machine_args_validate_iff_example :
    ((allocate_machine_args_validate plain_errors list_set (λ s. s) constraints ≡ none)
      ↔ WellFormed constraints)
    × ((pool : Text) (not_in_pool : List Text)
        → allocate_machine_args_validate plain_errors list_set
            (λ s. s)
            (record constraints { pool = pool; not_in_pool = not_in_pool })
          ≡ allocate_machine_args_validate plain_errors list_set (λ s. s) constraints)
allocate_machine_args_validate_iff_example =
    allocate_machine_args_validate_iff plain_errors list_set (λ s. s) constraints

constraints_run : allocate_machine_args_validate plain_errors list_set (λ s. s) constraints ≡ none
unfolding allocate_machine_args_validate codes list_eq nat_eq
constraints_run = refl
