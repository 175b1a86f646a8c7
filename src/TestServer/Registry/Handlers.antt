-- ===== src/TestServer/Registry/Handlers.antt =====
-- The handlers of `/subnets/`, `/spaces/` and `/static-routes/`. A panic is `none`.
pub mod Laws
pub mod Reach
use gomaasapi.Prelude.{
  ℕ, zero, suc, ◌+◌, ◌-◌, Bool, true, false, ◌||◌, Option, none, some, List, [], ◌∷◌, length,
  if◌then◌else◌, ◌==◌, nat_eq, list_eq, leb, ◌&&◌, map,
}
use gomaasapi.Strings.{Text, codes}
use gomaasapi.Params.{Values, get}
use gomaasapi.TestServer.Store.{Store, find, store, remove}
use gomaasapi.TestServer.Addresses.{name_or_id_to_id}
use gomaasapi.TestServer.Subnets.{
  Net, AddressRange, TestSubnet, SubnetStats, subnet_unreserved_ip_ranges,
  subnet_reserved_ip_ranges, subnet_statistics,
}
use gomaasapi.TestServer.Registry.{
  CreateSubnet, TestSpace, TestStaticRoute, Registry, subnet_at, new_subnet, update_subnet,
  all_subnets, set_subnets_on_space, set_subnets_on_static_route,
}

-- A request: the method, whether the path is that of all objects, what the pattern `/name/(.+?)/`
-- finds in it, and the query, `none` where it does not parse; a posted subnet where it is one.
pub record Request : Type 0 where
  pub method : Text
  pub is_top : Bool
  pub matched : Option Text
  pub query : Option Values
  pub posted : Option CreateSubnet

module _ (F : Type 0) where
  pub data Body : Type 0 where
    empty : Body
    not_found : Body
    subnet_list : List TestSubnet → Body
    one_subnet : TestSubnet → Body
    range_list : List AddressRange → Body
    statistics : SubnetStats F → Body
    space_list : List TestSpace → Body
    one_space : Option TestSpace → Body
    route_list : List TestStaticRoute → Body
    one_route : Option TestStaticRoute → Body

  pub record Answer : Type 0 where
    pub status : ℕ
    pub body : Body

  abbrev pub answer : ℕ → Body → Answer
  answer status body = record { status = status; body = body }

  abbrev missing : Answer
  missing = answer 404 not_found

  -- The identifier in the path: 0 where there is none, `none` where it stands for nothing
  unfoldable pub requested : {A : Type 0} → Option Text → Store ℕ → List (ℕ × A) → Option (Option ℕ)
  requested none names objects = some none
  requested (some v) names objects = elim (name_or_id_to_id v names 1 (length objects)) [
    | none ↦ none
    | some id ↦ some (some id)
  ]

  or_zero : Option ℕ → ℕ
  or_zero none = 0
  or_zero (some id) = id

  with_body : {A : Type 0} → (A → Body) → Option A → Option Answer
  with_body f none = none
  with_body f (some a) = some (answer 200 (f a))

  -- strings.ToLower, where it decides whether the text is one of those below
  to_lower : Text → Text
  to_lower [] = []
  to_lower (c ∷ s) = (if leb b'A' c && leb c b'Z' then c + 32 else c) ∷ to_lower s

  wants_ranges : Text → Bool
  unfolding to_lower
  wants_ranges v =
      to_lower v == codes "true" || to_lower v == codes "yes" || to_lower v == codes "1"

  module _ (net : Net) (usage_of : ℕ → ℕ → F × Text) where
    -- The `switch` on the operation
    subnet_operation : Text → Bool → TestSubnet → Option Answer
    unfolding with_body
    subnet_operation op include_ranges subnet =
        if op == codes "unreserved_ip_ranges"
        then with_body range_list (subnet_unreserved_ip_ranges net subnet)
        else if op == codes "reserved_ip_ranges"
        then with_body range_list (subnet_reserved_ip_ranges net subnet)
        else if op == codes "statistics"
        then with_body statistics (subnet_statistics net usage_of subnet include_ranges)
        else some (answer 200 (one_subnet subnet))

    get_subnets : Text → Bool → Bool → Option ℕ → Registry → Option Answer
    unfolding subnet_operation
    get_subnets op include_ranges is_top id s =
        if length s.subnets == 0
        then some missing
        else if is_top
        then some (answer 200 (subnet_list (all_subnets s)))
        else elim id [
          | none ↦ some (answer 400 empty)
          | some id ↦ subnet_operation op include_ranges (subnet_at id s)
        ]

    -- The operation of a request that changes the subnets, on a body that is decoded
    with_posted :
        Option CreateSubnet
        → (CreateSubnet → Registry → Registry)
        → Registry
        → Option (Answer × Registry)
    with_posted none f s = none
    with_posted (some posted) f s = some (answer 200 empty, f posted s)

    unchanged : Option Answer → Registry → Option (Answer × Registry)
    unchanged none s = none
    unchanged (some a) s = some (a, s)

    subnets_method : Request → Values → Option ℕ → Registry → Option (Answer × Registry)
    unfolding get_subnets with_posted unchanged wants_ranges or_zero
    subnets_method r query id s =
        if r.method == codes "GET"
        then unchanged
            (get_subnets (get (codes "op") query)
              (wants_ranges (get (codes "include_ranges") query)) r.is_top id s)
            s
        else if r.method == codes "POST"
        then with_posted r.posted new_subnet s
        else if r.method == codes "PUT"
        then with_posted r.posted update_subnet s
        else if r.method == codes "DELETE"
        then some (answer 200 empty, record s { subnets = remove (or_zero id) s.subnets })
        else some (answer 400 empty, s)

    -- subnetsHandler
    unfoldable pub subnets_handler : Request → Registry → Option (Answer × Registry)
    unfolding subnets_method requested
    subnets_handler r s = elim r.query [
      | none ↦ none
      | some query ↦ elim (requested r.matched s.subnet_name_to_id s.subnets) [
        | none ↦ some (missing, s)
        | some id ↦ subnets_method r query id s
      ]
    ]

  -- The loop of the list of spaces, which sets the subnets of each space that it lists
  unfoldable pub list_spaces : ℕ → ℕ → Registry → List TestSpace × Registry
  list_spaces zero i s = ([], s)
  list_spaces (suc rounds) i s = elim (find i s.spaces) [
    | none ↦ list_spaces rounds (i + 1) s
    | some space ↦
        let space' = set_subnets_on_space s space in
        let (rest, s') =
          list_spaces rounds (i + 1) (record s { spaces = store i space' s.spaces }) in
        (space' ∷ rest, s')
  ]

  space_answer : Option ℕ → Registry → Answer
  space_answer none s = answer 400 empty
  space_answer (some id) s = answer 200 (one_space (find id s.spaces))

  get_spaces : Bool → Option ℕ → Registry → Answer × Registry
  unfolding space_answer
  get_spaces is_top id s =
      if length s.spaces == 0
      then (missing, s)
      else if is_top
      then (let (spaces, s') = list_spaces (s.next_space - 1) 1 s in
          (answer 200 (space_list spaces), s'))
      else (space_answer id s, s)

  spaces_method : Request → Option ℕ → Registry → Answer × Registry
  unfolding get_spaces or_zero
  spaces_method r id s =
      if r.method == codes "GET"
      then get_spaces r.is_top id s
      else if r.method == codes "POST"
      then (answer 200 empty, s)
      else if r.method == codes "PUT"
      then (answer 200 empty, s)
      else if r.method == codes "DELETE"
      then (answer 200 empty, record s { spaces = remove (or_zero id) s.spaces })
      else (answer 400 empty, s)

  -- spacesHandler
  unfoldable pub spaces_handler : Request → Registry → Option (Answer × Registry)
  unfolding spaces_method requested
  spaces_handler r s = elim r.query [
    | none ↦ none
    | some query ↦
        if get (codes "op") query == []
        then elim (requested r.matched s.space_name_to_id s.spaces) [
          | none ↦ some (missing, s)
          | some id ↦ some (spaces_method r id s)
        ]
        else some (answer 400 empty, s)
  ]

  -- The loop of the list of static routes
  unfoldable pub list_routes : ℕ → ℕ → Registry → List TestStaticRoute × Registry
  list_routes zero i s = ([], s)
  list_routes (suc rounds) i s = elim (find i s.static_routes) [
    | none ↦ list_routes rounds (i + 1) s
    | some route ↦
        let route' = set_subnets_on_static_route s route in
        let (rest, s') =
          list_routes rounds (i + 1)
            (record s { static_routes = store i route' s.static_routes }) in
        (route' ∷ rest, s')
  ]

  route_answer : Option ℕ → Registry → Answer
  route_answer none s = answer 400 empty
  route_answer (some id) s = answer 200 (one_route (find id s.static_routes))

  get_routes : Bool → Option ℕ → Registry → Answer × Registry
  unfolding route_answer
  get_routes is_top id s =
      if length s.static_routes == 0
      then (missing, s)
      else if is_top
      then (let (routes, s') = list_routes (s.next_static_route - 1) 1 s in
          (answer 200 (route_list routes), s'))
      else (route_answer id s, s)

  routes_method : Request → Option ℕ → Registry → Answer × Registry
  unfolding get_routes or_zero
  routes_method r id s =
      if r.method == codes "GET"
      then get_routes r.is_top id s
      else if r.method == codes "POST"
      then (answer 501 empty, s)
      else if r.method == codes "PUT"
      then (answer 501 empty, s)
      else if r.method == codes "DELETE"
      then (answer 200 empty, record s { static_routes = remove (or_zero id) s.static_routes })
      else (answer 400 empty, s)

  -- staticRoutesHandler; static routes have no names.
  unfoldable pub static_routes_handler : Request → Registry → Option (Answer × Registry)
  unfolding routes_method requested
  static_routes_handler r s = elim r.query [
    | none ↦ none
    | some query ↦
        if get (codes "op") query == []
        then elim (requested r.matched [] s.static_routes) [
          | none ↦ some (missing, s)
          | some id ↦ some (routes_method r id s)
        ]
        else some (answer 400 empty, s)
  ]
