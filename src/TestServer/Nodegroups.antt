-- ===== src/TestServer/Nodegroups.antt =====
-- The node groups, their boot images and interfaces, and the version of the test server, in
-- testservice.go. A panic is `none`.
use gomaasapi.Prelude.{
  ℕ, Bool, true, ◌&&◌, Option, none, some, List, [], ◌∷◌, ◌++◌, if◌then◌else◌, ◌==◌, nat_eq,
  list_eq,
}
use gomaasapi.Strings.{Text, codes}
use gomaasapi.Params.{Values, get}
use gomaasapi.Value.{str, obj, Members, end, member, field}
use gomaasapi.Http.{Platform}
use gomaasapi.Http.Dispatch.{Client}
use gomaasapi.Object.{JsonObject, resource_uri, maasify}
use gomaasapi.TestServer.Store.{Store, find, store, is_there}
use gomaasapi.TestServer.Networks.{attributes}

-- Whether the map has all of these members
unfoldable pub has_members : {F : Type 0} → List Text → Members F → Bool
has_members [] attrs = true
has_members (name ∷ names) attrs = is_there (field name attrs) && has_members names attrs

abbrev pub required_members : List Text
required_members =
    codes "ip_range_high"
    ∷ codes "ip_range_low"
    ∷ codes "broadcast_ip"
    ∷ codes "static_ip_range_low"
    ∷ codes "static_ip_range_high"
    ∷ codes "name"
    ∷ codes "ip"
    ∷ codes "subnet_mask"
    ∷ codes "management"
    ∷ codes "interface"
    ∷ []

-- The path of a request to `/nodegroups/`: of all of them, of the boot images or the interfaces of
-- one, or another.
pub data NodegroupTarget : Type 0 where
  all_nodegroups : NodegroupTarget
  boot_images_of : Text → NodegroupTarget
  interfaces_of : Text → NodegroupTarget
  no_nodegroup : NodegroupTarget

module _ (P : Platform) where
  -- The fields of TestServer that are used here
  pub record NodegroupServer : Type 0 where
    pub boot_images : Store (List (JsonObject P.Float))
    pub nodegroups_interfaces : Store (List (JsonObject P.Float))
    pub version_json : Text
    pub client : Option Client
    pub version : Text

  pub data NodegroupBody : Type 0 where
    no_body : NodegroupBody
    not_found : NodegroupBody
    objects : List (JsonObject P.Float) → NodegroupBody
    text_body : Text → NodegroupBody

  pub record NodegroupAnswer : Type 0 where
    pub status : ℕ
    pub body : NodegroupBody

  abbrev pub nodegroup_answer : ℕ → NodegroupBody → NodegroupAnswer
  nodegroup_answer status body = record { status = status; body = body }

  objects_at : Text → Store (List (JsonObject P.Float)) → List (JsonObject P.Float)
  objects_at uuid m = elim (find uuid m) [ none ↦ [] | some l ↦ l ]

  -- The object of a JSON text that has some members
  object_with : List Text → Text → NodegroupServer → Option (JsonObject P.Float)
  unfolding has_members
  object_with names json_text s = elim (attributes P (P.unmarshal json_text)) [
    | none ↦ none
    | some attrs ↦ if has_members names attrs then maasify s.client (obj attrs) else none
  ]

  -- NewNodegroupInterface
  unfoldable pub new_nodegroup_interface :
      Text → Text → NodegroupServer → Option (JsonObject P.Float × NodegroupServer)
  unfolding object_with objects_at
  new_nodegroup_interface uuid json_text s =
      if is_there (find uuid s.boot_images)
      then elim (object_with required_members json_text s) [
        | none ↦ none
        | some o ↦
            let interfaces = objects_at uuid s.nodegroups_interfaces ++ o ∷ [] in
            some (
              o,
              record s { nodegroups_interfaces = store uuid interfaces s.nodegroups_interfaces },
            )
      ]
      else none

  -- AddBootImage
  unfoldable pub add_boot_image : Text → Text → NodegroupServer → Option NodegroupServer
  unfolding object_with objects_at
  add_boot_image uuid json_text s =
      elim (object_with (codes "architecture" ∷ codes "release" ∷ []) json_text s) [
        | none ↦ none
        | some o ↦ some (record s {
          boot_images = store uuid (objects_at uuid s.boot_images ++ o ∷ []) s.boot_images;
        })
      ]

  -- SetVersionJSON
  unfoldable pub set_version_json : Text → NodegroupServer → NodegroupServer
  set_version_json json s = record s { version_json = json }

  -- versionHandler
  unfoldable pub version_handler : Text → NodegroupServer → Option NodegroupAnswer
  version_handler method s =
      if method == codes "GET" then some (nodegroup_answer 200 (text_body s.version_json)) else none

  nodegroup_object : Text → NodegroupServer → Option (JsonObject P.Float)
  nodegroup_object uuid s =
      let uri = codes "/api/" ++ s.version ++ codes "/nodegroups/" ++ uuid ++ codes "/" in
      maasify s.client (obj (member (codes "uuid") (str uuid) (member resource_uri (str uri) end)))

  nodegroup_objects :
      Store (List (JsonObject P.Float)) → NodegroupServer → Option (List (JsonObject P.Float))
  unfolding nodegroup_object
  nodegroup_objects [] s = some []
  nodegroup_objects ((uuid, images) ∷ m) s =
      let rest = nodegroup_objects m s in
      elim (nodegroup_object uuid s) [
        | none ↦ none
        | some o ↦ elim rest [ none ↦ none | some l ↦ some (o ∷ l) ]
      ]

  -- nodegroupsTopLevelHandler
  unfoldable pub nodegroups_top_level_handler :
      Text → Text → NodegroupServer → Option NodegroupAnswer
  unfolding nodegroup_objects
  nodegroups_top_level_handler method op s =
      if method == codes "GET" && op == codes "list"
      then elim (nodegroup_objects s.boot_images s) [
        | none ↦ none
        | some l ↦ some (nodegroup_answer 200 (objects l))
      ]
      else some (nodegroup_answer 400 no_body)

  -- bootimagesHandler
  unfoldable pub bootimages_handler : Text → Text → NodegroupServer → NodegroupAnswer
  bootimages_handler method uuid s =
      if method == codes "GET"
      then elim (find uuid s.boot_images) [
        | none ↦ nodegroup_answer 404 not_found
        | some images ↦ nodegroup_answer 200 (objects images)
      ]
      else nodegroup_answer 400 no_body

  -- nodegroupsInterfacesHandler
  unfoldable pub nodegroups_interfaces_handler : Text → Text → NodegroupServer → NodegroupAnswer
  unfolding objects_at
  nodegroups_interfaces_handler method uuid s =
      if method == codes "GET"
      then if is_there (find uuid s.boot_images)
        then nodegroup_answer 200 (objects (objects_at uuid s.nodegroups_interfaces))
        else nodegroup_answer 404 not_found
      else nodegroup_answer 400 no_body

  -- nodegroupsHandler, of the query, which is `none` where it does not parse
  unfoldable pub nodegroups_handler :
      Text → NodegroupTarget → Option Values → NodegroupServer → Option NodegroupAnswer
  nodegroups_handler method target none s = none
  nodegroups_handler method all_nodegroups (some query) s =
      nodegroups_top_level_handler method (get (codes "op") query) s
  nodegroups_handler method (boot_images_of uuid) (some query) s =
      some (bootimages_handler method uuid s)
  nodegroups_handler method (interfaces_of uuid) (some query) s =
      some (nodegroups_interfaces_handler method uuid s)
  nodegroups_handler method no_nodegroup (some query) s = some (nodegroup_answer 404 not_found)
