-- ===== src/Tests/Registry.antt =====
-- The registry of the test server, at concrete data.
use mathlib.Core.List.{Memᴰ}
use gomaasapi.Prelude.{ℕ, ◌≡◌, ◌↔◌, ◌≤◌, ◌<◌, refl, ◌-◌, some, List, map, length, arith, nat_eq}
use gomaasapi.Strings.{Text, codes}
use gomaasapi.TestServer.Store.{find, store}
use gomaasapi.TestServer.Numbered.{in_order}
use gomaasapi.TestServer.Registry.{Registry, clear, CreateSpace, TestSpace, new_space}
use gomaasapi.TestServer.Subnets.{TestSubnet}
use gomaasapi.TestServer.Registry.Invariant.{IsWellFormed}
use gomaasapi.TestServer.Registry.Handlers.{answer, space_list, spaces_handler}
use gomaasapi.TestServer.Registry.Handlers.Reach.{
  Reachable, cleared, made_space, Reachable-IsWellFormed, space_listing, spaces_handler-listing,
  with_subnets,
}
use gomaasapi.Tests.Ranges.{local_net, no_usage}

abbrev posted : Text → CreateSpace
posted name = record { name = name }

abbrev one_space : Registry
one_space = new_space (codes "1.0") (posted (codes "a")) clear

one_space-Reachable : Reachable (Unit {0}) local_net no_usage (codes "1.0") one_space
one_space-Reachable = made_space (posted (codes "a")) (omega arith) cleared

Reachable-IsWellFormed_example : IsWellFormed one_space
Reachable-IsWellFormed_example =
    Reachable-IsWellFormed (Unit {0}) local_net no_usage (codes "1.0") one_space-Reachable

spaces_handler-listing_example :
    (l : List TestSpace) × (s : Registry) × (spaces_handler (Unit {0}) space_listing one_space
      ≡ some (answer (Unit {0}) 200 (space_list l), s))
    × (l ≡ map (with_subnets one_space) (in_order (one_space.next_space - 1) 1 one_space.spaces))
    × (length l ≡ length one_space.spaces)
    × ((t : TestSubnet)
        → Memᴰ t (in_order (one_space.next_subnet - 1) 1 one_space.subnets) ↔ (
            (id : ℕ) × (1 ≤ id)
            × (id < one_space.next_subnet)
            × (find id one_space.subnets ≡ some t)))
unfolding new_space store nat_eq
spaces_handler-listing_example =
    spaces_handler-listing (Unit {0}) local_net no_usage (codes "1.0") one_space one_space-Reachable
      refl
