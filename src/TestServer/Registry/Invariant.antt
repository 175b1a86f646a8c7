-- ===== src/TestServer/Registry/Invariant.antt =====
-- What the operations on the registry keep.
use gomaasapi.Prelude.{ℕ, ◌+◌, ◌^◌, ◌<◌, ◌≤◌, ◌≡◌, refl, ◌∙◌, List, [], ◌∷◌, nat_eq, list_eq, arith}
use gomaasapi.Strings.{Text}
use gomaasapi.TestServer.Numbered.{IsNumbered, store-IsNumbered}
use gomaasapi.TestServer.Subnets.{TestSubnet, after}
use gomaasapi.TestServer.Registry.{
  Registry, clear, CreateSpace, CreateStaticRoute, TestSpace, TestStaticRoute, new_space,
  new_static_route, set_subnets_on_space, set_subnets_on_static_route, with_end, with_ends,
  all_subnets,
}

-- The spaces and the static routes are numbered.
pub record IsWellFormed (s : Registry) : Type 0 where
  pub spaces : IsNumbered (λ (a : TestSpace). a.id) s.next_space s.spaces
  pub routes : IsNumbered (λ (a : TestStaticRoute). a.id) s.next_static_route s.static_routes
  pub first_space : 1 ≤ s.next_space
  pub first_route : 1 ≤ s.next_static_route

pub clear-IsWellFormed : IsWellFormed clear
clear-IsWellFormed = record {
  spaces = record { distinct = tt; each = tt };
  routes = record { distinct = tt; each = tt };
  first_space = omega arith;
  first_route = omega arith;
}

after_lem : (n : ℕ) → n + 1 < 2 ^ 64 → after n ≡ n + 1
unfolding after
after_lem n h = omega arith

pub new_space-IsWellFormed :
    (version : Text) (posted : CreateSpace) (s : Registry)
    → s.next_space + 1 < 2 ^ 64
    → IsWellFormed s
    → IsWellFormed (new_space version posted s)
unfolding new_space
new_space-IsWellFormed version posted s h w =
    let e = after_lem s.next_space h in
    record {
      spaces = rw e (
          store-IsNumbered (λ (a : TestSpace). a.id) s.next_space s.spaces w.spaces s.next_space
            (s.next_space + 1) _ w.first_space (omega arith) (omega arith) refl);
      routes = w.routes;
      first_space = rw e (omega arith);
      first_route = w.first_route;
    }

pub new_static_route-IsWellFormed :
    (version : Text) (posted : CreateStaticRoute) (s : Registry)
    → s.next_static_route + 1 < 2 ^ 64
    → IsWellFormed s
    → IsWellFormed (new_static_route version posted s)
unfolding new_static_route
new_static_route-IsWellFormed version posted s h w =
    let e = after_lem s.next_static_route h in
    record {
      spaces = w.spaces;
      routes = rw e (
          store-IsNumbered (λ (a : TestStaticRoute). a.id) s.next_static_route s.static_routes
            w.routes s.next_static_route (s.next_static_route + 1) _ w.first_route (omega arith)
            (omega arith) refl);
      first_space = w.first_space;
      first_route = rw e (omega arith);
    }

with_end-id :
    (subnet : TestSubnet) (route : TestStaticRoute) → (with_end subnet route).id ≡ route.id
unfolding with_end
with_end-id subnet route = ground arith

with_ends-id : (route : TestStaticRoute) (l : List TestSubnet) → (with_ends route l).id ≡ route.id
unfolding with_ends
with_ends-id route [] = refl
with_ends-id route (subnet ∷ l) = with_ends-id (with_end subnet route) l ∙ with_end-id subnet route

pub set_subnets_on_static_route-id :
    (s : Registry) (route : TestStaticRoute) → (set_subnets_on_static_route s route).id ≡ route.id
unfolding set_subnets_on_static_route
set_subnets_on_static_route-id s route = with_ends-id route (all_subnets s)

pub set_subnets_on_space-id :
    (s : Registry) (space : TestSpace) → (set_subnets_on_space s space).id ≡ space.id
unfolding set_subnets_on_space
set_subnets_on_space-id s space = refl

-- A change of the subnets and the nodes alone
abbrev pub elsewhere : Registry → Registry → Registry
elsewhere s t = record t {
  spaces = s.spaces;
  next_space = s.next_space;
  static_routes = s.static_routes;
  next_static_route = s.next_static_route;
}

pub elsewhere-IsWellFormed : (s t : Registry) → IsWellFormed s → IsWellFormed (elsewhere s t)
elsewhere-IsWellFormed s t w = record {
  spaces = w.spaces;
  routes = w.routes;
  first_space = w.first_space;
  first_route = w.first_route;
}
