-- ===== src/TestServer/Registry/Handlers/Reach.antt =====
-- The registries that the server reaches, and the list of spaces in them.
use mathlib.Core.List.{Memᴰ, filter}
use gomaasapi.Prelude.{
  ℕ, zero, suc, ◌+◌, ◌-◌, ◌^◌, ◌<◌, ◌≡◌, ◌↔◌, refl, ap, sym, ◌∙◌, Bool, true, false, ite,
  if◌then◌else◌, none, some, map, List, ◌≤◌, [], ◌∷◌, length, ◌==◌, nat_eq, list_eq, Option-cases,
  All-mono, inl, inr, arith,
}
use gomaasapi.Strings.{Text, codes}
use gomaasapi.Params.{get, values_of, first_value}
use gomaasapi.TestServer.Store.{find, store}
use gomaasapi.TestServer.Numbered.{
  in_order, length-in_order, in_order-store, in_order-found, in_order-absent,
}
use gomaasapi.TestServer.Numbered.Members.{Member-in_order}
use gomaasapi.TestServer.Subnets.{Net, AddressRange, TestSubnet}
use gomaasapi.TestServer.Registry.{
  Registry, clear, CreateSubnet, CreateSpace, CreateStaticRoute, TestSpace, NodeNetworkInterface,
  new_subnet, new_space, new_static_route, add_fixed_address_range, set_node_network_link,
  set_subnets_on_space, all_subnets, of_space,
}
use gomaasapi.TestServer.Registry.Invariant.{
  IsWellFormed, clear-IsWellFormed, new_space-IsWellFormed, new_static_route-IsWellFormed,
  elsewhere-IsWellFormed,
}
use gomaasapi.TestServer.Registry.Handlers.{
  Request, Answer, answer, space_list, subnets_handler, spaces_handler, static_routes_handler,
  list_spaces,
}
use gomaasapi.TestServer.Registry.Handlers.Laws.{
  subnets_handler-Kept, spaces_handler-Kept, static_routes_handler-Kept, Kept-some,
}

-- The request for the list of spaces
abbrev pub space_listing : Request
space_listing = record {
  method = codes "GET";
  is_top = true;
  matched = none;
  query = some [];
  posted = none;
}

-- The subnets whose space has this name
abbrev pub subnets_of : Text → List TestSubnet → List TestSubnet
subnets_of name = filter (λ (t : TestSubnet). list_eq.dec t.space name)

-- The space with the subnets that are in it
abbrev pub with_subnets : Registry → TestSpace → TestSpace
with_subnets s space = record space {
  subnets = subnets_of space.name (in_order (s.next_subnet - 1) 1 s.subnets);
}

branch :
    {A X : Type 0} (d : Dec X) (a b : A)
    → (if ite {C = Bool} d true false then a else b) ≡ ite {C = A} d a b
branch (yes x) a b = refl
branch (no n) a b = refl

of_space-filter : (name : Text) (l : List TestSubnet) → of_space name l ≡ subnets_of name l
unfolding of_space
of_space-filter name [] = refl
of_space-filter name (t ∷ l) =
    rw (of_space-filter name l)
      (branch (list_eq.dec t.space name) (t ∷ subnets_of name l) (subnets_of name l))

set_subnets_on_space_lem :
    (s : Registry) (space : TestSpace) → set_subnets_on_space s space ≡ with_subnets s space
unfolding set_subnets_on_space all_subnets
set_subnets_on_space_lem s space =
    ap (λ l. record space { subnets = l })
      (of_space-filter space.name (in_order (s.next_subnet - 1) 1 s.subnets))

module _ (F : Type 0) (net : Net) (usage_of : ℕ → ℕ → F × Text) (version : Text) where
  -- What a caller of the server and its clients do, in any order; no counter of identifiers is taken
  -- to its end.
  pub data Reachable : Registry → Type 0 where
    cleared : Reachable clear
    made_space :
        {s : Registry} (posted : CreateSpace)
        → s.next_space + 1 < 2 ^ 64
        → Reachable s
        → Reachable (new_space version posted s)
    made_route :
        {s : Registry} (posted : CreateStaticRoute)
        → s.next_static_route + 1 < 2 ^ 64
        → Reachable s
        → Reachable (new_static_route version posted s)
    made_subnet :
        {s : Registry} (posted : CreateSubnet) → Reachable s → Reachable (new_subnet posted s)
    fixed :
        {s : Registry} (id : ℕ) (ar : AddressRange)
        → Reachable s
        → Reachable (add_fixed_address_range net id ar s)
    linked :
        {s : Registry} (system_id : Text) (ni : NodeNetworkInterface)
        → Reachable s
        → Reachable (set_node_network_link system_id ni s)
    subnets_handled :
        {s s' : Registry} (r : Request) (a : Answer F)
        → Reachable s
        → subnets_handler F net usage_of r s ≡ some (a, s')
        → Reachable s'
    spaces_handled :
        {s s' : Registry} (r : Request) (a : Answer F)
        → Reachable s
        → spaces_handler F r s ≡ some (a, s')
        → Reachable s'
    routes_handled :
        {s s' : Registry} (r : Request) (a : Answer F)
        → Reachable s
        → static_routes_handler F r s ≡ some (a, s')
        → Reachable s'

  -- In every registry that the server reaches, the spaces and the static routes stand under their own
  -- identifiers, which are from 1 to below the next one to be given out, and none stands there twice.
  pub Reachable-IsWellFormed : {s : Registry} → Reachable s → IsWellFormed s
  unfolding new_subnet add_fixed_address_range set_node_network_link
  Reachable-IsWellFormed cleared = clear-IsWellFormed
  Reachable-IsWellFormed (made_space {s} posted h r) =
      new_space-IsWellFormed version posted s h (Reachable-IsWellFormed r)
  Reachable-IsWellFormed (made_route {s} posted h r) =
      new_static_route-IsWellFormed version posted s h (Reachable-IsWellFormed r)
  Reachable-IsWellFormed (made_subnet {s} posted r) =
      elsewhere-IsWellFormed s (new_subnet posted s) (Reachable-IsWellFormed r)
  Reachable-IsWellFormed (fixed {s} id ar r) =
      elsewhere-IsWellFormed s (add_fixed_address_range net id ar s) (Reachable-IsWellFormed r)
  Reachable-IsWellFormed (linked {s} system_id ni r) =
      elsewhere-IsWellFormed s (set_node_network_link system_id ni s) (Reachable-IsWellFormed r)
  Reachable-IsWellFormed (subnets_handled {s} {s'} r a h e) =
      Kept-some F _ a s' (subnets_handler-Kept F net usage_of r s (Reachable-IsWellFormed h)) e
  Reachable-IsWellFormed (spaces_handled {s} {s'} r a h e) =
      Kept-some F _ a s' (spaces_handler-Kept F r s (Reachable-IsWellFormed h)) e
  Reachable-IsWellFormed (routes_handled {s} {s'} r a h e) =
      Kept-some F _ a s' (static_routes_handler-Kept F r s (Reachable-IsWellFormed h)) e

  list_spaces-in_order :
      (rounds i : ℕ) (s : Registry)
      → (list_spaces F rounds i s).0 ≡ map (set_subnets_on_space s) (in_order rounds i s.spaces)
  unfolding list_spaces in_order set_subnets_on_space all_subnets
  list_spaces-in_order zero i s = refl
  list_spaces-in_order (suc rounds) i s = elim (Option-cases (find i s.spaces)) [
    | inl e ↦
        rw (list_spaces, e) (list_spaces-in_order rounds (i + 1) s)
        ∙ ap (map (set_subnets_on_space s)) (sym (in_order-absent rounds i s.spaces e))
    | inr (space, e) ↦
        let space' = set_subnets_on_space s space in
        let s' = record s { spaces = store i space' s.spaces } in
        let step : (list_spaces F (suc rounds) i s).0
            ≡ space' ∷ (list_spaces F rounds (i + 1) s').0 =
          rw (list_spaces, e) refl in
        let kept = in_order-store rounds (i + 1) i space' s.spaces (omega arith) in
        let rest : (list_spaces F rounds (i + 1) s').0
            ≡ map (set_subnets_on_space s) (in_order rounds (i + 1) s.spaces) =
          list_spaces-in_order rounds (i + 1) s' ∙ ap (map (set_subnets_on_space s)) kept in
        step
        ∙ ap (λ l. space' ∷ l) rest
        ∙ ap (map (set_subnets_on_space s)) (sym (in_order-found rounds i space s.spaces e))
  ]

  length-map : {A B : Type 0} (f : A → B) (l : List A) → length (map f l) ≡ length l
  length-map f [] = refl
  length-map f (a ∷ l) = omega (arith, length-map f l)

  map-with_subnets :
      (s : Registry) (l : List TestSpace) → map (set_subnets_on_space s) l ≡ map (with_subnets s) l
  map-with_subnets s [] = refl
  map-with_subnets s (space ∷ l) =
      rw (map, set_subnets_on_space_lem s space, map-with_subnets s l) refl

  -- In a registry that the server reaches and that has a space, the list of spaces has each of them
  -- once, by rising identifiers, with the subnets whose space has its name. These are taken from the
  -- subnets that stand, at that time, under an identifier from 1 to below the next one.
  pub spaces_handler-listing :
      (s : Registry)
      → Reachable s
      → (length s.spaces == 0) ≡ false
      → (l : List TestSpace) × (s' : Registry) × (spaces_handler F space_listing s
          ≡ some (answer F 200 (space_list l), s'))
        × (l ≡ map (with_subnets s) (in_order (s.next_space - 1) 1 s.spaces))
        × (length l ≡ length s.spaces)
        × ((t : TestSubnet)
            → Memᴰ t (in_order (s.next_subnet - 1) 1 s.subnets)
              ↔ ((id : ℕ) × (1 ≤ id) × (id < s.next_subnet) × (find id s.subnets ≡ some t)))
  unfolding spaces_handler get list_eq codes nat_eq values_of first_value
  spaces_handler-listing s r h =
      let w = Reachable-IsWellFormed r in
      let (l, s') = list_spaces F (s.next_space - 1) 1 s in
      let e : l ≡ map (with_subnets s) (in_order (s.next_space - 1) 1 s.spaces) =
        list_spaces-in_order (s.next_space - 1) 1 s ∙ map-with_subnets s _ in
      (
        l,
        s',
        rw h refl,
        e,
        ap length e
            ∙ length-map (with_subnets s) (in_order (s.next_space - 1) 1 s.spaces)
            ∙ length-in_order s.next_space s.spaces w.spaces.distinct (
                All-mono (λ (k, a). (1 ≤ k) × (k < s.next_space) × (a.id ≡ k))
                  (λ (k, a). (1 ≤ k) × (k < s.next_space)) (λ (k, a) (p, q, r). (p, q)) s.spaces
                  w.spaces.each),
        λ t.
            let (to, from) = Member-in_order (s.next_subnet - 1) 1 s.subnets t in
            (
              λ m. let (id, l, r, f) = to m in (id, l, omega arith, f),
              λ (id, l, r, f). from (id, l, omega arith, f),
            ),
      )
