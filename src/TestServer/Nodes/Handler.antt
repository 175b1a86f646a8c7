-- ===== src/TestServer/Nodes/Handler.antt =====
-- The dispatch of requests for nodes, `nodesHandler`, and the handler of one node.
pub mod Laws
use gomaasapi.Prelude.{
  ℕ, Bool, true, false, ◌&&◌, ◌||◌, Option, none, some, List, [], ◌∷◌, if◌then◌else◌, ◌==◌, nat_eq,
  list_eq, Result, ok, err, contains,
}
use gomaasapi.Strings.{Text, codes}
use gomaasapi.Params.{Values, values_of}
use gomaasapi.Http.{Platform}
use gomaasapi.Object.{JsonObject, Fields, get_string}
use gomaasapi.Object.Maas.{MaasObject, lookup, get_field}
use gomaasapi.TestServer.Store.{Store, find, store, remove, is_there}
use gomaasapi.TestServer.Nodes.{
  Target, top, node_at, elsewhere, Request, set_field, node_status_deployed,
  node_status_failed_deployment, Server, Answer, answer, empty, node, listed, details, statuses,
  add_node_operation, nodes_acquire_handler, nodes_release_handler,
}

module _ (P : Platform) where
  -- The nodes that a request asks for by their ids, or all of them: nodeListingHandler
  unfoldable pub chosen_nodes : Values → Store (MaasObject P) → List (Fields P.Float)
  chosen_nodes query [] = []
  chosen_nodes query ((system_id, n) ∷ nodes) =
      let rest = chosen_nodes query nodes in
      if not_asked query || contains (values_of (codes "id") query) system_id
      then n.values ∷ rest
      else rest
    where
      not_asked : Values → Bool
      not_asked [] = true
      not_asked ((name, vs) ∷ p) = if name == codes "id" then false else not_asked p

  status_text : Text → Text
  status_text s =
      if s == node_status_deployed
      then codes "Deployed"
      else if s == node_status_failed_deployment
      then codes "Failed deployment"
      else codes "Not in Deployment"

  status_of : Option (MaasObject P) → Option Text
  status_of none = none
  status_of (some n) = elim (get_field P (codes "status") n) [
    | err e ↦ none
    | ok s ↦ some (status_text s)
  ]

  -- The loop of nodeDeploymentStatusHandler; a node without a status is passed over.
  unfoldable pub deployment_statuses : List Text → Store (MaasObject P) → Store Text
  unfolding status_of status_text
  deployment_statuses [] nodes = []
  deployment_statuses (system_id ∷ ids) nodes =
      let rest = deployment_statuses ids nodes in
      elim (status_of (find system_id nodes)) [ none ↦ rest | some s ↦ store system_id s rest ]

  -- The XML of a node as BSON, and the JSON of its interfaces, which the server holds elsewhere.
  module _ (details_text : Text → Text) (interfaces_of : Text → JsonObject P.Float) where
    with_interfaces : MaasObject P → Option (JsonObject P.Float) → MaasObject P
    with_interfaces n none = n
    with_interfaces n (some o) = elim (get_string P o) [
      | err e ↦ n
      | ok uuid ↦ record n {
        values = set_field (codes "interface_set") (interfaces_of uuid) n.values;
      }
    ]

    get_node : Text → Text → MaasObject P → Server P → Answer P × Server P
    get_node op system_id n s =
        if op == []
        then (answer P 200 (node n), s)
        else if op == codes "details"
        then (answer P 200 (details (details_text system_id)), s)
        else (answer P 400 empty, s)

    let_go : Text → Text → Server P → Server P
    let_go op system_id s =
        if op == codes "release"
        then record s { owned_nodes = remove system_id s.owned_nodes }
        else s

    known_operation : Text → Bool
    known_operation op = op == codes "start" || op == codes "stop" || op == codes "release"

    post_node : Text → Text → Values → MaasObject P → Server P → Option (Answer P × Server P)
    unfolding let_go known_operation
    post_node op system_id form n s =
        if known_operation op
        then (elim (add_node_operation P system_id op form s) [
          | none ↦ none
          | some s' ↦ some (answer P 200 (node n), let_go op system_id s')
        ])
        else some (answer P 400 empty, s)

    found_node : Request → Text → MaasObject P → Server P → Option (Answer P × Server P)
    unfolding get_node post_node
    found_node r system_id n s =
        if r.method == codes "GET"
        then some (get_node r.op system_id n s)
        else if r.method == codes "POST"
        then post_node r.op system_id r.form n s
        else if r.method == codes "DELETE"
        then some (answer P 200 empty, record s { nodes = remove system_id s.nodes })
        else some (answer P 404 empty, s)

    -- nodeHandler
    unfoldable pub node_handler : Request → Text → Server P → Option (Answer P × Server P)
    unfolding found_node with_interfaces
    node_handler r system_id s = elim (find system_id s.nodes) [
      | none ↦ some (answer P 404 empty, s)
      | some n ↦
          let n' = with_interfaces n (lookup P (codes "system_id") n.values) in
          found_node r system_id n' (record s { nodes = store system_id n' s.nodes })
    ]

    module _ (parse_float : Text → Option P.Float) (float_leb : P.Float → P.Float → Bool) where
      -- nodesTopLevelHandler
      unfoldable pub nodes_top_level_handler : Request → Server P → Option (Answer P × Server P)
      nodes_top_level_handler r s =
          if r.method == codes "GET" && r.op == codes "list"
          then some (answer P 200 (listed (chosen_nodes r.query s.nodes)), s)
          else if r.method == codes "GET" && r.op == codes "deployment_status"
          then some (
            answer P 200
                (statuses (deployment_statuses (values_of (codes "nodes") r.query) s.nodes)),
            s,
          )
          else if r.method == codes "POST" && r.op == codes "acquire"
          then nodes_acquire_handler P parse_float float_leb r.form s
          else if r.method == codes "POST" && r.op == codes "release"
          then some (nodes_release_handler P r.form s)
          else some (answer P 400 empty, s)

      -- nodesHandler
      unfoldable pub nodes_handler : Request → Server P → Option (Answer P × Server P)
      unfolding nodes_top_level_handler
      nodes_handler r s = elim r.target [
        | top ↦ nodes_top_level_handler r s
        | node_at system_id ↦ node_handler r system_id s
        | elsewhere ↦ some (answer P 404 empty, s)
      ]
