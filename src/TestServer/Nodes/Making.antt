-- ===== src/TestServer/Nodes/Making.antt =====
-- NewNode and ChangeNode of testservice.go. A panic is `none`.
use gomaasapi.Prelude.{Option, none, some, ◌++◌, if◌then◌else◌, nat_eq, list_eq}
use gomaasapi.Strings.{Text, codes}
use gomaasapi.Value.{Value, str, Members, field}
use gomaasapi.Http.{Platform}
use gomaasapi.Http.Dispatch.{Client}
use gomaasapi.Object.{resource_uri, maasify}
use gomaasapi.Object.Maas.{MaasObject, new_json_maas_object}
use gomaasapi.TestServer.Store.{find, store, is_there}
use gomaasapi.TestServer.Nodes.{Server, set_field, node_status_deployed}
use gomaasapi.TestServer.Networks.{attributes, text_at, set_member}

-- The map, with the status of a deployed node where it has none
with_status : {F : Type 0} → Members F → Members F
with_status attrs =
    if is_there (field (codes "status") attrs)
    then attrs
    else set_member (codes "status") (str node_status_deployed) attrs

module _ (P : Platform) (client : Option Client) (version : Text) where
  made_node : Text → Members P.Float → Server P → Option (MaasObject P × Server P)
  unfolding with_status
  made_node system_id attrs s =
      let uri = codes "/api/" ++ version ++ codes "/nodes/" ++ system_id ++ codes "/" in
      elim (new_json_maas_object P (with_status (set_member resource_uri (str uri) attrs)) client) [
        | none ↦ none
        | some o ↦ some (o, record s { nodes = store system_id o s.nodes })
      ]

  -- NewNode
  unfoldable pub new_node : Text → Server P → Option (MaasObject P × Server P)
  unfolding made_node
  new_node json_text s = elim (attributes P (P.unmarshal json_text)) [
    | none ↦ none
    | some attrs ↦ elim (text_at (codes "system_id") attrs) [
      | none ↦ none
      | some system_id ↦ made_node system_id attrs s
    ]
  ]

  -- ChangeNode
  unfoldable pub change_node : Text → Text → Text → Server P → Option (Server P)
  change_node system_id key value s = elim (find system_id s.nodes) [
    | none ↦ none
    | some node ↦
        let v : Value P.Float = str value in
        elim (maasify client v) [
          | none ↦ none
          | some o ↦ some (record s {
            nodes = store system_id (record node { values = set_field key o node.values }) s.nodes;
          })
        ]
  ]
