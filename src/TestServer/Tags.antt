-- ===== src/TestServer/Tags.antt =====
-- The tags and the zones of the test server, in testservice.go. A panic is `none`; a query and a form
-- are `none` where they do not parse.
pub mod Laws
use gomaasapi.Prelude.{
  ℕ, Bool, true, false, not, ◌&&◌, ◌||◌, Option, none, some, List, [], ◌∷◌, ◌++◌, length,
  if◌then◌else◌, ◌==◌, nat_eq, list_eq,
}
use gomaasapi.Strings.{Text, codes}
use gomaasapi.Params.{Values, get}
use gomaasapi.Value.{Value, str, obj, Members, end, member}
use gomaasapi.Http.{Platform}
use gomaasapi.Http.Dispatch.{Client}
use gomaasapi.Object.{
  JsonObject, Fields, Items, no_items, item, object, items, plain, nothing, resource_uri, maasify,
}
use gomaasapi.Object.Maas.{MaasObject}
use gomaasapi.TestServer.Store.{Store, find, store, remove, is_there}
use gomaasapi.TestServer.Nodes.{set_field}
use gomaasapi.TestServer.Devices.{get_value, get_values}

-- The tags other than one, as the loops of tagHandler collect them
unfoldable pub other_tags : Text → List Text → List Text
other_tags name [] = []
other_tags name (tag ∷ tags) =
    let rest = other_tags name tags in if not (tag == name) then tag ∷ rest else rest

-- The values that getValues gives, nil where there are none
unfoldable pub values_or_nil : Option (List Text) → List Text
values_or_nil none = []
values_or_nil (some l) = l

-- The objects of a map, in the order of `range`
objects_of : {A : Type 0} → Store A → List A
objects_of [] = []
objects_of ((key, a) ∷ m) = a ∷ objects_of m

-- A request: whether the path is that of all tags, the name that the pattern of a tag's URL finds in
-- it, the posted form and the query.
pub record TagRequest : Type 0 where
  pub method : Text
  pub is_top : Bool
  pub tag : Option Text
  pub form : Option Values
  pub query : Option Values

module _ (P : Platform) where
  -- The fields of TestServer that are used here
  pub record TagServer : Type 0 where
    pub nodes : Store (MaasObject P)
    pub tags : Store (JsonObject P.Float)
    pub zones : Store (JsonObject P.Float)
    pub tags_per_node : Store (List Text)
    pub client : Option Client
    pub version : Text

  -- `tag_bytes` are tags whose JSON is written as the numbers of its bytes.
  pub data TagBody : Type 0 where
    empty_body : TagBody
    not_found : TagBody
    object_list : List (JsonObject P.Float) → TagBody
    one_object : JsonObject P.Float → TagBody
    node_list : List (Fields P.Float) → TagBody
    tag_bytes : List (JsonObject P.Float) → TagBody
    add_remove_count : ℕ → ℕ → TagBody

  pub record TagAnswer : Type 0 where
    pub status : ℕ
    pub body : TagBody

  abbrev pub tag_answer : ℕ → TagBody → TagAnswer
  tag_answer status body = record { status = status; body = body }

  abbrev pub tags_of : Text → TagServer → List Text
  tags_of system_id s = elim (find system_id s.tags_per_node) [ none ↦ [] | some tags ↦ tags ]

  -- `server.tags[name]`, the zero JSONObject where it is missing
  tag_named : Text → TagServer → JsonObject P.Float
  tag_named name s = elim (find name s.tags) [ none ↦ plain nothing | some tag ↦ tag ]

  tag_items : List Text → TagServer → Items P.Float
  unfolding tag_named
  tag_items [] s = no_items
  tag_items (name ∷ names) s = item (tag_named name s) (tag_items names s)

  -- The tags of a node are changed, and written to its field `tag_names`.
  unfoldable pub retagged : (List Text → List Text) → Text → MaasObject P → TagServer → TagServer
  unfolding tag_items
  retagged change system_id node s =
      let tags = change (tags_of system_id s) in
      let tag_names = plain (items (tag_items tags s)) in
      record s {
        tags_per_node = store system_id tags s.tags_per_node;
        nodes =
            store system_id
              (record node { values = set_field (codes "tag_names") tag_names node.values })
              s.nodes;
      }

  -- A loop over the nodes that are named, which ends at the first that is missing
  unfoldable pub each_node : (List Text → List Text) → List Text → TagServer → Bool × TagServer
  each_node change [] s = (true, s)
  each_node change (system_id ∷ ids) s = elim (find system_id s.nodes) [
    | none ↦ (false, s)
    | some node ↦ each_node change ids (retagged change system_id node s)
  ]

  -- The operation `update_nodes`
  unfoldable pub update_nodes : Text → Values → TagServer → TagAnswer × TagServer
  update_nodes name values s =
      let add = get_values values (codes "add") in
      let del = get_values values (codes "remove") in
      let add_nodes = values_or_nil add in
      let del_nodes = values_or_nil del in
      let (all_added, s') = each_node (λ tags. other_tags name tags ++ name ∷ []) add_nodes s in
      let (all_removed, s'') = each_node (other_tags name) del_nodes s' in
      if not (is_there add) && not (is_there del)
      then (tag_answer 400 empty_body, s)
      else if not all_added
      then (tag_answer 400 empty_body, s')
      else if not all_removed
      then (tag_answer 400 empty_body, s'')
      else (tag_answer 200 (add_remove_count (length add_nodes) (length del_nodes)), s'')

  -- AddTag and the tag of newTagHandler
  tag_object : Text → Option Text → TagServer → Option (JsonObject P.Float)
  tag_object name comment s =
      let uri = codes "/api/" ++ s.version ++ codes "/tags/" ++ name ++ codes "/" in
      let members = member (codes "name") (str name) (member resource_uri (str uri) end) in
      maasify s.client
        (obj (elim comment [ none ↦ members | some c ↦ member (codes "comment") (str c) members ]))

  unfoldable pub new_tag : Text → Option Text → TagServer → Option (JsonObject P.Float × TagServer)
  unfolding tag_object
  new_tag name comment s = elim (tag_object name comment s) [
    | none ↦ none
    | some tag ↦ some (tag, record s { tags = store name tag s.tags })
  ]

  -- AddTag
  unfoldable pub add_tag : Text → Text → TagServer → Option TagServer
  add_tag name comment s = elim (new_tag name (some comment) s) [
    | none ↦ none
    | some (tag, s') ↦ some s'
  ]

  -- AddZone
  unfoldable pub add_zone : Text → Text → TagServer → Option TagServer
  add_zone name description s =
      elim (maasify s.client (
        obj (
          member (codes "name") (str name) (member (codes "description") (str description) end)))) [
            | none ↦ none
            | some zone ↦ some (record s { zones = store name zone s.zones })
          ]

  -- The calls of newTagHandler, one for each name
  new_tags : List Text → Values → TagServer → Option (List (JsonObject P.Float) × TagServer)
  new_tags [] values s = some ([], s)
  new_tags (name ∷ names) values s = elim (new_tag name (get_value values (codes "comment")) s) [
    | none ↦ none
    | some (tag, s') ↦ elim (new_tags names values s') [
      | none ↦ none
      | some (rest, s'') ↦ some (tag ∷ rest, s'')
    ]
  ]

  unfoldable pub new_tag_handler : List Text → Values → TagServer → Option (TagAnswer × TagServer)
  unfolding new_tags
  new_tag_handler names values s = elim (new_tags names values s) [
    | none ↦ none
    | some (tags, s') ↦ some (tag_answer 200 (tag_bytes tags), s')
  ]

  -- One entry of the answer for each time that the node has the tag
  node_entries : Text → List Text → Fields P.Float → List (Fields P.Float)
  node_entries name [] node = []
  node_entries name (tag ∷ tags) node =
      let rest = node_entries name tags node in if name == tag then node ∷ rest else rest

  tagged_nodes : Text → Store (MaasObject P) → TagServer → List (Fields P.Float)
  unfolding node_entries
  tagged_nodes name [] s = []
  tagged_nodes name ((system_id, node) ∷ nodes) s =
      node_entries name (tags_of system_id s) node.values ++ tagged_nodes name nodes s

  -- tagHandler
  unfoldable pub tag_handler :
      Text → Text → Text → Values → TagServer → Option (TagAnswer × TagServer)
  unfolding tagged_nodes tag_named
  tag_handler method name op values s =
      if method == codes "GET"
      then some (
        tag_answer 200 (
            if op == codes "node"
            then node_list (tagged_nodes name s.nodes s)
            else one_object (tag_named name s)),
        s,
      )
      else if method == codes "POST"
      then some (
          if op == codes "update_nodes"
          then update_nodes name values s
          else (tag_answer 200 empty_body, s))
      else if method == codes "PUT"
      then new_tag_handler (name ∷ []) values s
      else if method == codes "DELETE"
      then some (tag_answer 200 empty_body, record s { tags = remove name s.tags })
      else some (tag_answer 200 empty_body, s)

  top_level_tags : Text → Text → Values → TagServer → Option (TagAnswer × TagServer)
  unfolding objects_of
  top_level_tags method op values s =
      let names = get_values values (codes "name") in
      if method == codes "GET"
      then some (tag_answer 200 (object_list (objects_of s.tags)), s)
      else if method == codes "POST" && is_there names && (op == [] || op == codes "new")
      then new_tag_handler (values_or_nil names) values s
      else some (tag_answer 400 empty_body, s)

  -- tagsHandler
  unfoldable pub tags_handler : TagRequest → TagServer → Option (TagAnswer × TagServer)
  unfolding top_level_tags
  tags_handler r s = elim r.form [
    | none ↦ none
    | some values ↦ elim r.query [
      | none ↦ none
      | some query ↦
          let op = get (codes "op") query in
          if r.is_top then top_level_tags r.method op values s else elim r.tag [
            | none ↦ some (tag_answer 404 not_found, s)
            | some name ↦ tag_handler r.method name op values s
          ]
    ]
  ]

  -- zonesHandler
  unfoldable pub zones_handler : Text → TagServer → TagAnswer
  unfolding objects_of
  zones_handler method s =
      if not (method == codes "GET")
      then tag_answer 400 empty_body
      else if length s.zones == 0
      then tag_answer 404 not_found
      else tag_answer 200 (object_list (objects_of s.zones))
