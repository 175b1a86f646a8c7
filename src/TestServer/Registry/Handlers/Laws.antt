-- ===== src/TestServer/Registry/Handlers/Laws.antt =====
-- What every registry that the server reaches keeps, and the lists that it gives.
use mathlib.Core.Path.{subst}
use gomaasapi.Prelude.{
  ℕ, zero, suc, ◌+◌, ◌-◌, ◌<◌, ◌≤◌, ◌≡◌, ◌∙◌, Bool, Option, none, some, [], length, ◌==◌, nat_eq,
  list_eq, Option-cases, inl, inr, arith, if_elim,
}
use gomaasapi.Strings.{Text, codes}
use gomaasapi.Params.{Values, get}
use gomaasapi.TestServer.Store.{find, store, remove}
use gomaasapi.TestServer.Numbered.{find-All, store-IsNumbered, remove-IsNumbered}
use gomaasapi.TestServer.Subnets.{Net}
use gomaasapi.TestServer.Registry.{
  Registry, CreateSubnet, TestSpace, TestStaticRoute, new_subnet, update_subnet,
  set_subnets_on_space, set_subnets_on_static_route,
}
use gomaasapi.TestServer.Registry.Invariant.{
  IsWellFormed, elsewhere-IsWellFormed, set_subnets_on_space-id, set_subnets_on_static_route-id,
}
use gomaasapi.TestServer.Registry.Handlers.{
  Request, Answer, subnets_handler, spaces_handler, static_routes_handler, list_spaces, list_routes,
  requested, get_spaces, get_routes, spaces_method, routes_method, or_zero, unchanged, with_posted,
  subnets_method,
}

module _ (F : Type 0) where
  list_spaces-IsWellFormed :
      (rounds i : ℕ) (s : Registry) → IsWellFormed s → IsWellFormed (list_spaces F rounds i s).1
  unfolding list_spaces
  list_spaces-IsWellFormed zero i s w = w
  list_spaces-IsWellFormed (suc rounds) i s w = elim (Option-cases (find i s.spaces)) [
    | inl e ↦ rw (list_spaces, e) (list_spaces-IsWellFormed rounds (i + 1) s w)
    | inr (space, e) ↦
        let (low, high, same) =
          find-All (λ (k, a). (1 ≤ k) × (k < s.next_space) × (a.id ≡ k)) i space s.spaces e
            w.spaces.each in
        let next : IsWellFormed
            (record s { spaces = store i (set_subnets_on_space s space) s.spaces }) =
          record {
            spaces =
                store-IsNumbered (λ (a : TestSpace). a.id) s.next_space s.spaces w.spaces i
                  s.next_space (set_subnets_on_space s space) low high (omega arith)
                  (set_subnets_on_space-id s space ∙ same);
            routes = w.routes;
            first_space = w.first_space;
            first_route = w.first_route;
          } in
        rw (list_spaces, e) (list_spaces-IsWellFormed rounds (i + 1) _ next)
  ]

  list_routes-IsWellFormed :
      (rounds i : ℕ) (s : Registry) → IsWellFormed s → IsWellFormed (list_routes F rounds i s).1
  unfolding list_routes
  list_routes-IsWellFormed zero i s w = w
  list_routes-IsWellFormed (suc rounds) i s w = elim (Option-cases (find i s.static_routes)) [
    | inl e ↦ rw (list_routes, e) (list_routes-IsWellFormed rounds (i + 1) s w)
    | inr (route, e) ↦
        let (low, high, same) =
          find-All (λ (k, a). (1 ≤ k) × (k < s.next_static_route) × (a.id ≡ k)) i route
            s.static_routes e w.routes.each in
        let route' = set_subnets_on_static_route s route in
        let same' = set_subnets_on_static_route-id s route ∙ same in
        let next : IsWellFormed (record s { static_routes = store i route' s.static_routes }) =
          record {
            spaces = w.spaces;
            routes =
                store-IsNumbered (λ (a : TestStaticRoute). a.id) s.next_static_route s.static_routes
                  w.routes i s.next_static_route route' low high (omega arith) same';
            first_space = w.first_space;
            first_route = w.first_route;
          } in
        rw (list_routes, e) (list_routes-IsWellFormed rounds (i + 1) _ next)
  ]

  abbrev pub Fine : Answer F × Registry → Type 0
  Fine (a, s) = IsWellFormed s

  get_spaces-IsWellFormed :
      (is_top : Bool) (id : Option ℕ) (s : Registry)
      → IsWellFormed s
      → Fine (get_spaces F is_top id s)
  unfolding get_spaces
  get_spaces-IsWellFormed is_top id s w =
      if_elim Fine (length s.spaces == 0) _ _ (λ _. w)
        (λ _.
          if_elim Fine is_top _ _ (λ _. list_spaces-IsWellFormed (s.next_space - 1) 1 s w) (λ _. w))

  get_routes-IsWellFormed :
      (is_top : Bool) (id : Option ℕ) (s : Registry)
      → IsWellFormed s
      → Fine (get_routes F is_top id s)
  unfolding get_routes
  get_routes-IsWellFormed is_top id s w =
      if_elim Fine (length s.static_routes == 0) _ _ (λ _. w)
        (λ _.
          if_elim Fine is_top _ _ (λ _. list_routes-IsWellFormed (s.next_static_route - 1) 1 s w)
            (λ _. w))

  spaces_method-IsWellFormed :
      (r : Request) (id : Option ℕ) (s : Registry) → IsWellFormed s → Fine (spaces_method F r id s)
  unfolding spaces_method
  spaces_method-IsWellFormed r id s w =
      if_elim Fine (r.method == codes "GET") _ _ (λ _. get_spaces-IsWellFormed r.is_top id s w)
        (λ _.
          if_elim Fine (r.method == codes "POST") _ _ (λ _. w)
            (λ _.
              if_elim Fine (r.method == codes "PUT") _ _ (λ _. w)
                (λ _.
                  if_elim Fine (r.method == codes "DELETE") _ _
                    (λ _. record {
                      spaces =
                          remove-IsNumbered (λ (a : TestSpace). a.id) s.next_space s.spaces w.spaces
                            (or_zero F id);
                      routes = w.routes;
                      first_space = w.first_space;
                      first_route = w.first_route;
                    })
                    (λ _. w))))

  routes_method-IsWellFormed :
      (r : Request) (id : Option ℕ) (s : Registry) → IsWellFormed s → Fine (routes_method F r id s)
  unfolding routes_method
  routes_method-IsWellFormed r id s w =
      if_elim Fine (r.method == codes "GET") _ _ (λ _. get_routes-IsWellFormed r.is_top id s w)
        (λ _.
          if_elim Fine (r.method == codes "POST") _ _ (λ _. w)
            (λ _.
              if_elim Fine (r.method == codes "PUT") _ _ (λ _. w)
                (λ _.
                  if_elim Fine (r.method == codes "DELETE") _ _
                    (λ _. record {
                      spaces = w.spaces;
                      routes =
                          remove-IsNumbered (λ (a : TestStaticRoute). a.id) s.next_static_route
                            s.static_routes w.routes (or_zero F id);
                      first_space = w.first_space;
                      first_route = w.first_route;
                    })
                    (λ _. w))))

  -- Where a handler gives an answer, the registry is well-formed.
  abbrev pub Kept : Option (Answer F × Registry) → Type 0
  Kept none = Unit
  Kept (some p) = Fine p

  unchanged-Kept :
      (net : Net) (usage_of : ℕ → ℕ → F × Text) (o : Option (Answer F)) (s : Registry)
      → IsWellFormed s
      → Kept (unchanged F net usage_of o s)
  unfolding unchanged
  unchanged-Kept net usage_of none s w = tt
  unchanged-Kept net usage_of (some a) s w = w

  with_posted-Kept :
      (net : Net) (usage_of : ℕ → ℕ → F × Text) (posted : Option CreateSubnet)
      (f : CreateSubnet → Registry → Registry) (s : Registry)
      → ((p : CreateSubnet) → IsWellFormed (f p s))
      → Kept (with_posted F net usage_of posted f s)
  unfolding with_posted
  with_posted-Kept net usage_of none f s w = tt
  with_posted-Kept net usage_of (some p) f s w = w p

  subnets_method-Kept :
      (net : Net) (usage_of : ℕ → ℕ → F × Text) (r : Request) (query : Values) (id : Option ℕ)
      (s : Registry)
      → IsWellFormed s
      → Kept (subnets_method F net usage_of r query id s)
  unfolding subnets_method new_subnet update_subnet
  subnets_method-Kept net usage_of r query id s w =
      if_elim Kept (r.method == codes "GET") _ _ (λ _. unchanged-Kept net usage_of _ s w)
        (λ _.
          if_elim Kept (r.method == codes "POST") _ _
            (λ _.
              with_posted-Kept net usage_of r.posted new_subnet s
                (λ p. elsewhere-IsWellFormed s (new_subnet p s) w))
            (λ _.
              if_elim Kept (r.method == codes "PUT") _ _
                (λ _.
                  with_posted-Kept net usage_of r.posted update_subnet s
                    (λ p. elsewhere-IsWellFormed s (update_subnet p s) w))
                (λ _.
                  if_elim Kept (r.method == codes "DELETE") _ _
                    (λ _.
                      elsewhere-IsWellFormed s
                        (record s { subnets = remove (or_zero F id) s.subnets }) w)
                    (λ _. w))))

  pub subnets_handler-Kept :
      (net : Net) (usage_of : ℕ → ℕ → F × Text) (r : Request) (s : Registry)
      → IsWellFormed s
      → Kept (subnets_handler F net usage_of r s)
  unfolding subnets_handler
  subnets_handler-Kept net usage_of r s w = elim (Option-cases r.query) [
    | inl e ↦ rw (subnets_handler, e) tt
    | inr (query, e) ↦ elim (Option-cases (requested F r.matched s.subnet_name_to_id s.subnets)) [
      | inl f ↦ rw (subnets_handler, e, f) w
      | inr (id, f) ↦ rw (subnets_handler, e, f) (subnets_method-Kept net usage_of r query id s w)
    ]
  ]

  pub spaces_handler-Kept :
      (r : Request) (s : Registry) → IsWellFormed s → Kept (spaces_handler F r s)
  unfolding spaces_handler
  spaces_handler-Kept r s w = elim (Option-cases r.query) [
    | inl e ↦ rw (spaces_handler, e) tt
    | inr (query, e) ↦ elim (Option-cases (requested F r.matched s.space_name_to_id s.spaces)) [
      | inl f ↦
          rw (spaces_handler, e, f)
            (if_elim Kept (get (codes "op") query == []) _ _ (λ _. w) (λ _. w))
      | inr (id, f) ↦
          rw (spaces_handler, e, f)
            (if_elim Kept (get (codes "op") query == []) _ _
              (λ _. spaces_method-IsWellFormed r id s w) (λ _. w))
    ]
  ]

  pub static_routes_handler-Kept :
      (r : Request) (s : Registry) → IsWellFormed s → Kept (static_routes_handler F r s)
  unfolding static_routes_handler
  static_routes_handler-Kept r s w = elim (Option-cases r.query) [
    | inl e ↦ rw (static_routes_handler, e) tt
    | inr (query, e) ↦ elim (Option-cases (requested F r.matched [] s.static_routes)) [
      | inl f ↦
          rw (static_routes_handler, e, f)
            (if_elim Kept (get (codes "op") query == []) _ _ (λ _. w) (λ _. w))
      | inr (id, f) ↦
          rw (static_routes_handler, e, f)
            (if_elim Kept (get (codes "op") query == []) _ _
              (λ _. routes_method-IsWellFormed r id s w) (λ _. w))
    ]
  ]

  -- Of a handler that gives an answer
  pub Kept-some :
      (o : Option (Answer F × Registry)) (a : Answer F) (s : Registry)
      → Kept o
      → o ≡ some (a, s)
      → IsWellFormed s
  Kept-some o a s k e = subst Kept e k
