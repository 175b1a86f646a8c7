-- ===== src/TestServer/Nodes.antt =====
-- The handlers of `/nodes/` in testservice.go, on the part of the server's state that they use. A
-- panic is `none`. A request has the path that was matched, the `op` and the other values of its
-- query, and its form; an answer has the objects that are written as JSON.
pub mod Handler
pub mod Making
pub mod Matching
pub mod Records
pub mod Laws
use gomaasapi.Prelude.{
  ℕ, Bool, true, false, not, ◌&&◌, ◌||◌, Option, none, some, List, [], ◌∷◌, ◌++◌, if◌then◌else◌,
  ◌==◌, nat_eq, list_eq, Result, ok, err, contains,
}
use gomaasapi.Strings.{Text, codes, split}
use gomaasapi.Params.{Values, values_of, first_value, get}
use gomaasapi.Http.{Platform}
use gomaasapi.Object.{JsonObject, Fields, no_fields, field, text, plain, get_float64, get_string}
use gomaasapi.Object.Maas.{MaasObject, lookup, get_field}
use gomaasapi.TestServer.Store.{Store, find, store, remove, is_there}

-- The path of a request: `/nodes/`, `/nodes/<system_id>/`, or another.
pub data Target : Type 0 where
  top : Target
  node_at : Text → Target
  elsewhere : Target

-- The parts of http.Request that the handlers read; `form` is what `parseRequestValues` gives.
pub record Request : Type 0 where
  pub method : Text
  pub target : Target
  pub op : Text
  pub query : Values
  pub form : Values

-- `m[key] = value` and `delete(m, key)` on a JSON map
unfoldable pub set_field : {F : Type 0} → Text → JsonObject F → Fields F → Fields F
set_field key v no_fields = field key v no_fields
set_field key v (field k u m) =
    let rest = set_field key v m in if k == key then field k v m else field k u rest

unfoldable pub delete_field : {F : Type 0} → Text → Fields F → Fields F
delete_field key no_fields = no_fields
delete_field key (field k u m) =
    let rest = delete_field key m in if k == key then rest else field k u rest

-- The node status values of enum.go
abbrev pub node_status_deployed : Text
node_status_deployed = codes "6"

abbrev pub node_status_failed_deployment : Text
node_status_failed_deployment = codes "11"

module _ (P : Platform) where
  -- The fields of TestServer that hold nodes and operations.
  pub record Server : Type 0 where
    pub nodes : Store (MaasObject P)
    pub owned_nodes : Store Bool
    pub node_operations : Store (List Text)
    pub nodes_operations : List Text
    pub node_operation_request_values : Store (List Values)
    pub nodes_operation_request_values : List Values

  -- Clear
  abbrev pub clear : Server
  clear = record {
    nodes = [];
    owned_nodes = [];
    node_operations = [];
    nodes_operations = [];
    node_operation_request_values = [];
    nodes_operation_request_values = [];
  }

  pub data Body : Type 0 where
    empty : Body
    node : MaasObject P → Body
    listed : List (Fields P.Float) → Body
    details : Text → Body
    unknown_nodes : List Text → Body
    statuses : List (Text × Text) → Body

  pub record Answer : Type 0 where
    pub status : ℕ
    pub body : Body

  abbrev pub answer : ℕ → Body → Answer
  answer status body = record { status = status; body = body }

  -- addNodesOperation
  unfoldable pub add_nodes_operation : Text → Values → Server → Server
  add_nodes_operation op form s = record s {
    nodes_operations = s.nodes_operations ++ op ∷ [];
    nodes_operation_request_values = s.nodes_operation_request_values ++ form ∷ [];
  }

  recorded : Text → List Text → List Values → Server → Server
  recorded system_id operations values s = record s {
    node_operations = store system_id operations s.node_operations;
    node_operation_request_values = store system_id values s.node_operation_request_values;
  }

  add_to : Text → Text → Values → Server → Option (List Text) → Option (List Values) → Option Server
  unfolding recorded
  add_to system_id op form s none none = some (recorded system_id (op ∷ []) (form ∷ []) s)
  add_to system_id op form s (some ops) (some vs) =
      some (recorded system_id (ops ++ op ∷ []) (vs ++ form ∷ []) s)
  add_to system_id op form s ops vs = none

  -- addNodeOperation, which panics where the two maps do not have the same keys
  unfoldable pub add_node_operation : Text → Text → Values → Server → Option Server
  unfolding add_to
  add_node_operation system_id op form s =
      add_to system_id op form s (find system_id s.node_operations)
        (find system_id s.node_operation_request_values)

  equals : Text → Result P.Err Text → Bool
  equals v (ok s) = s == v
  equals v (err e) = false

  base_equals : Text → Result P.Err Text → Bool
  base_equals v (ok s) = v == first_value (split s b'/')
  base_equals v (err e) = false

  -- matchField and matchArchitecture
  unfoldable pub match_field : Text → Text → MaasObject P → Bool
  unfolding equals
  match_field k v n = equals v (get_field P k n)

  unfoldable pub match_architecture : Text → Text → MaasObject P → Bool
  unfolding base_equals
  match_architecture k v n = base_equals v (get_field P k n)

  -- The node as it is now, and that it is owned.
  abbrev pub with_owner : Text → MaasObject P → Text → Server → Server
  with_owner key n system_id s = record s {
    nodes = store key n s.nodes;
    owned_nodes = store system_id true s.owned_nodes;
  }

  -- strconv.ParseFloat, and the order of float64
  module _ (parse_float : Text → Option P.Float) (float_leb : P.Float → P.Float → Bool) where
    at_most : Text → Result P.Err P.Float → Bool
    at_most v (err e) = false
    at_most v (ok x) = elim (parse_float v) [ none ↦ false | some y ↦ float_leb y x ]

    -- matchNumericField
    unfoldable pub match_numeric_field : Text → Text → MaasObject P → Bool
    unfolding at_most
    match_numeric_field k v n = elim (lookup P k n.values) [
      | none ↦ false
      | some o ↦ at_most v (get_float64 P o)
    ]

    -- A filter that is not given, or that the node passes
    wanted : (Text → MaasObject P → Bool) → Text → MaasObject P → Bool
    wanted test v n = v == [] || test v n

    -- The conditions of the loop of `findFreeNode`
    unfoldable pub matches : Values → MaasObject P → Bool
    unfolding wanted
    matches filter n =
        wanted (match_field (codes "hostname")) (get (codes "name") filter) n
        && wanted (match_field (codes "zone")) (get (codes "zone") filter) n
        && wanted (match_field (codes "tag_names")) (get (codes "tags") filter) n
        && wanted (match_numeric_field (codes "memory")) (get (codes "mem") filter) n
        && wanted (match_architecture (codes "architecture")) (get (codes "arch") filter) n
        && wanted (match_numeric_field (codes "cpu_count")) (get (codes "cpu-cores") filter) n

    -- The node with the agent that acquires it.
    unfoldable pub with_agent : Text → MaasObject P → MaasObject P
    with_agent agent n =
        if agent == []
        then record n { values = delete_field (codes "agent_name") n.values }
        else record n { values = set_field (codes "agent_name") (plain (text agent)) n.values }

    -- The loop of `findFreeNode`: the first node that nobody owns and that passes the filter
    unfoldable pub free_node :
        Values → Store Bool → Store (MaasObject P) → Option (Text × MaasObject P)
    free_node filter owned [] = none
    free_node filter owned ((system_id, n) ∷ nodes) =
        let rest = free_node filter owned nodes in
        if not (is_there (find system_id owned)) && matches filter n
        then some (system_id, n)
        else rest

    acquired : Values → Text → MaasObject P → Server → Result P.Err Text → Option (Answer × Server)
    acquired form key n s (err e) = none
    acquired form key n s (ok system_id) =
        elim (add_node_operation system_id (codes "acquire") form (with_owner key n system_id s)) [
          | none ↦ none
          | some s' ↦ some (answer 200 (node n), s')
        ]

    acquire_found : Values → Server → Option (Text × MaasObject P) → Option (Answer × Server)
    unfolding acquired with_agent
    acquire_found form s none = some (answer 409 empty, s)
    acquire_found form s (some (key, n)) =
        let n' = with_agent (get (codes "agent_name") form) n in
        acquired form key n' s (get_field P (codes "system_id") n')

    -- nodesAcquireHandler
    unfoldable pub nodes_acquire_handler : Values → Server → Option (Answer × Server)
    unfolding acquire_found
    nodes_acquire_handler form s =
        let s' = add_nodes_operation (codes "acquire") form s in
        acquire_found form s' (free_node form s'.owned_nodes s'.nodes)

  -- The loop of `nodesReleaseHandler` for nodes that the server does not have
  unfoldable pub unknown : List Text → Store (MaasObject P) → List Text
  unknown [] nodes = []
  unknown (system_id ∷ ids) nodes =
      let rest = unknown ids nodes in
      if is_there (find system_id nodes) then rest else system_id ∷ rest

  values_at : Text → Store (MaasObject P) → Fields P.Float
  values_at system_id nodes = elim (find system_id nodes) [ none ↦ no_fields | some n ↦ n.values ]

  -- The second loop: who owns what afterwards, and the nodes released
  unfoldable pub release_all :
      List Text → Store (MaasObject P) → Store Bool → List (Fields P.Float) × Store Bool
  unfolding values_at
  release_all [] nodes owned = ([], owned)
  release_all (system_id ∷ ids) nodes owned =
      let (freed, left) = release_all ids nodes (remove system_id owned) in
      let (others, left') = release_all ids nodes owned in
      if is_there (find system_id owned)
      then (values_at system_id nodes ∷ freed, left)
      else (others, left')

  released : Values → List Text → List Text → Server → Answer × Server
  released form ids (u ∷ us) s = (answer 400 (unknown_nodes (u ∷ us)), s)
  released form ids [] s =
      let (freed, owned) = release_all ids s.nodes s.owned_nodes in
      (answer 200 (listed freed), record s { owned_nodes = owned })

  -- nodesReleaseHandler
  unfoldable pub nodes_release_handler : Values → Server → Answer × Server
  unfolding released
  nodes_release_handler form s =
      let s' = add_nodes_operation (codes "release") form s in
      let ids = values_of (codes "nodes") form in released form ids (unknown ids s'.nodes) s'
