-- ===== src/Tests/Server.antt =====
-- The test server, at concrete requests.
use gomaasapi.Prelude.{
  ◌≡◌, refl, ◌⊎◌, true, false, none, some, [], ◌∷◌, ◌++◌, list_eq, nat_eq, All, leb, ℕ, Option,
  List, Result, ok,
}
use gomaasapi.Errors.{ErrorValue}
use gomaasapi.Strings.{Text, codes}
use gomaasapi.Params.{values_of, Values, get, first_value}
use gomaasapi.Http.{path_url}
use gomaasapi.Object.{JsonObject, no_fields, field, text, plain, nothing, get_string}
use gomaasapi.Object.Maas.{MaasObject, get_field, lookup}
use gomaasapi.TestServer.Store.{Store, find, store, is_there}
use gomaasapi.TestServer.Nodes.{
  delete_field, add_nodes_operation, Request, top, Server, clear, answer, node, free_node, matches,
  add_node_operation, nodes_release_handler, nodes_acquire_handler,
}
use gomaasapi.TestServer.Nodes.Matching.{Passes}
use gomaasapi.TestServer.Nodes.Laws.{
  PassedOver, free_node_lem, Outcome, nodes_release_handler-Outcome,
}
use gomaasapi.TestServer.Nodes.Handler.{nodes_handler}
use gomaasapi.TestServer.Nodes.Handler.Laws.{
  Reachable, cleared, put, handled, add_node_operation-Reachable,
}
use gomaasapi.TestServer.Files.{
  FileServer, files_handler, get_file_handler, get_file_url, file_answer, empty, raw,
}
use gomaasapi.TestServer.Files.Laws.{adding, getting, asked, files_handler-adding}
use gomaasapi.Tests.Bench.{bench}

abbrev machine : Text → MaasObject bench
machine id = record {
  values = field (codes "system_id") (plain (text id)) no_fields;
  client = none;
  uri = path_url (codes "/api/1.0/nodes/");
}

abbrev two_nodes : Server bench
two_nodes = record (clear bench) {
  nodes = (codes "a", machine (codes "a")) ∷ (codes "b", machine (codes "b")) ∷ [];
  owned_nodes = (codes "a", true) ∷ [];
}

abbrev no_number : Text → Option ℕ
no_number s = none

abbrev release_form : Values
release_form = (codes "nodes", codes "a" ∷ []) ∷ []

nodes_release_handler-Outcome_example :
    Outcome bench
      (values_of (codes "nodes") release_form)
      two_nodes
      (nodes_release_handler bench release_form two_nodes)
nodes_release_handler-Outcome_example = nodes_release_handler-Outcome bench release_form two_nodes

free_node_lem_example :
    ((free_node bench no_number leb [] two_nodes.owned_nodes two_nodes.nodes ≡ none)
      × All (PassedOver bench no_number leb [] two_nodes.owned_nodes) two_nodes.nodes)
    ⊎ ((id : Text) × (n : MaasObject bench) × (before after : Store (MaasObject bench)) × (free_node
            bench no_number leb [] two_nodes.owned_nodes two_nodes.nodes
          ≡ some (id, n))
        × (two_nodes.nodes ≡ before ++ (id, n) ∷ after)
        × (is_there (find id two_nodes.owned_nodes) ≡ false)
        × Passes bench no_number leb [] n
        × All (PassedOver bench no_number leb [] two_nodes.owned_nodes) before)
free_node_lem_example = free_node_lem bench no_number leb [] two_nodes.owned_nodes two_nodes.nodes

abbrev no_details : Text → Text
no_details id = []

abbrev no_interfaces : Text → JsonObject ℕ
no_interfaces id = plain nothing

abbrev acquire : Request
acquire = record {
  method = codes "POST";
  target = top;
  op = codes "acquire";
  query = [];
  form = [];
}

abbrev one_node : Server bench
one_node = record (clear bench) { nodes = (codes "a", machine (codes "a")) ∷ [] }

abbrev after_acquire : Server bench
after_acquire = record {
  nodes = (codes "a", machine (codes "a")) ∷ [];
  owned_nodes = (codes "a", true) ∷ [];
  node_operations = (codes "a", codes "acquire" ∷ []) ∷ [];
  nodes_operations = codes "acquire" ∷ [];
  node_operation_request_values = (codes "a", [] ∷ []) ∷ [];
  nodes_operation_request_values = [] ∷ [];
}

acquire_run :
    nodes_handler bench no_details no_interfaces no_number leb acquire one_node
    ≡ some (answer bench 200 (node (machine (codes "a"))), after_acquire)
unfolding nodes_handler codes list_eq nat_eq nodes_acquire_handler free_node add_nodes_operation
    find matches get first_value values_of get_field get_string lookup delete_field
    add_node_operation store
acquire_run = refl

acquired-Reachable : Reachable bench no_details no_interfaces no_number leb after_acquire
unfolding store
acquired-Reachable =
    handled one_node after_acquire acquire _
      (put (clear bench) (codes "a") (machine (codes "a")) cleared) acquire_run

add_node_operation-Reachable_example :
    (s' : Server bench) × (add_node_operation bench (codes "a") (codes "start") [] after_acquire
      ≡ some s')
add_node_operation-Reachable_example =
    add_node_operation-Reachable bench no_details no_interfaces no_number leb after_acquire
      (codes "a") (codes "start") [] acquired-Reachable

abbrev no_files : FileServer bench
no_files = record { files = []; client = none; version = codes "1.0" }

abbrev as_it_is : Text → Text
as_it_is t = t

abbrev always_decoded : Text → Result ErrorValue Text
always_decoded t = ok t

abbrev keep_order : List Text → List Text
keep_order l = l

files_handler-adding_example :
    (s : FileServer bench) × (files_handler bench keep_order as_it_is always_decoded
        (adding bench (codes "f") (codes "upload") (codes "hi"))
        no_files
      ≡ some (file_answer bench 200 empty, s))
    × (files_handler bench keep_order as_it_is always_decoded (getting bench (codes "f")) s
        ≡ some (file_answer bench 200 (raw (codes "hi")), s))
    × (get_file_handler bench keep_order as_it_is always_decoded (asked bench (codes "g")) s
        ≡ get_file_handler bench keep_order as_it_is always_decoded
            (asked bench (codes "g"))
            no_files)
unfolding codes nat_eq list_eq
files_handler-adding_example =
    files_handler-adding bench keep_order as_it_is always_decoded (codes "f") (codes "upload")
      (codes "hi") (codes "g") (path_url (get_file_url bench (codes "1.0") (codes "f"))) no_files
      refl refl refl refl
