-- ===== src/TestServer/Registry.antt =====
-- The subnets, spaces and static routes that the test server keeps under identifiers: the state and
-- its operations, of testservice_subnets.go, testservice_spaces.go and testservice_staticroutes.go.
-- A panic is `none`; the decoding of a posted body is a parameter, `none` where it fails.
pub mod Handlers
pub mod Invariant
use gomaasapi.Prelude.{
  ℕ, zero, suc, ◌+◌, ◌-◌, Bool, true, false, ◌&&◌, Option, none, some, List, [], ◌∷◌, ◌++◌,
  if◌then◌else◌, ◌==◌, nat_eq, list_eq, pos,
}
use gomaasapi.Strings.{Text, codes}
use gomaasapi.Strings.Decimal.{itoa}
use gomaasapi.TestServer.Store.{Store, find, store, remove}
use gomaasapi.TestServer.Numbered.{in_order}
use gomaasapi.TestServer.Addresses.{ip_from_net_ip, uint64}
use gomaasapi.TestServer.Subnets.{Net, TestVlan, AddressRange, TestSubnet, after}

-- CreateSubnet; VLAN, Fabric and VID are ignored.
pub record CreateSubnet : Type 0 where
  pub dns_servers : Option (List Text)
  pub name : Text
  pub space : Text
  pub gateway_ip : Text
  pub cidr : Text
  pub id : ℕ

-- TestSpace
pub record TestSpace : Type 0 where
  pub name : Text
  pub subnets : List TestSubnet
  pub resource_uri : Text
  pub id : ℕ

-- CreateSpace
pub record CreateSpace : Type 0 where
  pub name : Text

-- TestStaticRoute
pub record TestStaticRoute : Type 0 where
  pub destination : TestSubnet
  pub source : TestSubnet
  pub metric : ℕ
  pub gateway_ip : Text
  pub resource_uri : Text
  pub id : ℕ
  pub source_cidr : Text
  pub destination_cidr : Text

-- CreateStaticRoute
pub record CreateStaticRoute : Type 0 where
  pub source_cidr : Text
  pub destination_cidr : Text
  pub gateway_ip : Text
  pub metric : ℕ

-- NetworkLink
pub record NetworkLink : Type 0 where
  pub id : ℕ
  pub mode : Text
  pub subnet : Option TestSubnet

-- NodeNetworkInterface
pub record NodeNetworkInterface : Type 0 where
  pub name : Text
  pub links : List NetworkLink

-- Node
pub record Node : Type 0 where
  pub system_id : Text
  pub interfaces : List NodeNetworkInterface

-- The fields of TestServer for these
pub record Registry : Type 0 where
  pub subnets : List (ℕ × TestSubnet)
  pub subnet_name_to_id : Store ℕ
  pub next_subnet : ℕ
  pub spaces : List (ℕ × TestSpace)
  pub space_name_to_id : Store ℕ
  pub next_space : ℕ
  pub static_routes : List (ℕ × TestStaticRoute)
  pub next_static_route : ℕ
  pub node_metadata : Store Node

-- Clear
abbrev pub clear : Registry
clear = record {
  subnets = [];
  subnet_name_to_id = [];
  next_subnet = 1;
  spaces = [];
  space_name_to_id = [];
  next_space = 1;
  static_routes = [];
  next_static_route = 1;
  node_metadata = [];
}

-- The zero value of TestSubnet
abbrev pub zero_subnet : TestSubnet
zero_subnet = record {
  dns_servers = [];
  name = [];
  space = [];
  vlan = record { name = []; fabric = []; vid = 0; resource_uri = []; id = 0 };
  gateway_ip = [];
  cidr = [];
  resource_uri = [];
  id = 0;
  in_use_ip_addresses = [];
  fixed_address_ranges = [];
}

abbrev pub subnet_at : ℕ → Registry → TestSubnet
subnet_at id s = elim (find id s.subnets) [ none ↦ zero_subnet | some subnet ↦ subnet ]

-- AddFixedAddressRange
unfoldable pub add_fixed_address_range : Net → ℕ → AddressRange → Registry → Registry
add_fixed_address_range net subnet_id ar s =
    let subnet = subnet_at subnet_id s in
    let ar' = record ar {
      start_uint = uint64 (ip_from_net_ip (net.parse_ip ar.start));
      end_uint = uint64 (ip_from_net_ip (net.parse_ip ar.end));
    } in
    let subnet' = record subnet {
      fixed_address_ranges = subnet.fixed_address_ranges ++ ar' ∷ [];
    } in
    record s { subnets = store subnet_id subnet' s.subnets }

or_empty : Option (List Text) → List Text
or_empty none = []
or_empty (some l) = l

-- subnetFromCreateSubnet, of a subnet that decodePostedSubnet gives
unfoldable pub subnet_from_create_subnet : CreateSubnet → TestSubnet
unfolding or_empty
subnet_from_create_subnet posted = record zero_subnet {
  dns_servers = or_empty posted.dns_servers;
  name = posted.name;
  space = posted.space;
  gateway_ip = posted.gateway_ip;
  cidr = posted.cidr;
  id = posted.id;
}

-- UpdateSubnet, of a body that is decoded
unfoldable pub update_subnet : CreateSubnet → Registry → Registry
update_subnet posted s =
    let updated = subnet_from_create_subnet posted in
    record s { subnets = store updated.id updated s.subnets }

-- NewSubnet
unfoldable pub new_subnet : CreateSubnet → Registry → Registry
unfolding after
new_subnet posted s =
    let made = record (subnet_from_create_subnet posted) { id = s.next_subnet } in
    record s {
      subnets = store s.next_subnet made s.subnets;
      subnet_name_to_id = store made.name s.next_subnet s.subnet_name_to_id;
      next_subnet = after s.next_subnet;
    }

-- The loop of SetNodeNetworkLink: `none` where no interface has the name
replace_interface :
    NodeNetworkInterface → List NodeNetworkInterface → Option (List NodeNetworkInterface)
replace_interface new [] = none
replace_interface new (ni ∷ rest) =
    let others = replace_interface new rest in
    if ni.name == new.name
    then some (new ∷ rest)
    else elim others [ none ↦ none | some l ↦ some (ni ∷ l) ]

abbrev pub node_at : Text → Registry → Node
node_at system_id s = elim (find system_id s.node_metadata) [
  | none ↦ record { system_id = []; interfaces = [] }
  | some n ↦ n
]

-- SetNodeNetworkLink
unfoldable pub set_node_network_link : Text → NodeNetworkInterface → Registry → Registry
unfolding replace_interface
set_node_network_link system_id new s =
    let n = node_at system_id s in
    let interfaces : List NodeNetworkInterface = elim (replace_interface new n.interfaces) [
      | none ↦ n.interfaces ++ new ∷ []
      | some l ↦ l
    ] in
    record s {
      node_metadata = store system_id (record n { interfaces = interfaces }) s.node_metadata;
    }

-- NewSpace
unfoldable pub new_space : Text → CreateSpace → Registry → Registry
unfolding after
new_space version posted s =
    let made : TestSpace = record {
      name = posted.name;
      subnets = [];
      resource_uri =
          codes "/api/" ++ version ++ codes "/spaces/" ++ itoa (pos s.next_space) ++ codes "/";
      id = s.next_space;
    } in
    record s {
      spaces = store s.next_space made s.spaces;
      space_name_to_id = store made.name s.next_space s.space_name_to_id;
      next_space = after s.next_space;
    }

-- NewStaticRoute
unfoldable pub new_static_route : Text → CreateStaticRoute → Registry → Registry
unfolding after
new_static_route version posted s =
    let made : TestStaticRoute = record {
      destination = zero_subnet;
      source = zero_subnet;
      metric = posted.metric;
      gateway_ip = posted.gateway_ip;
      resource_uri =
          codes "/api/"
          ++ version
          ++ codes "/static-routes/"
          ++ itoa (pos s.next_static_route)
          ++ codes "/";
      id = s.next_static_route;
      source_cidr = posted.source_cidr;
      destination_cidr = posted.destination_cidr;
    } in
    record s {
      static_routes = store s.next_static_route made s.static_routes;
      next_static_route = after s.next_static_route;
    }

-- The loop over the subnets, from 1 to the last identifier given
unfoldable pub all_subnets : Registry → List TestSubnet
all_subnets s = in_order (s.next_subnet - 1) 1 s.subnets

of_space : Text → List TestSubnet → List TestSubnet
of_space name [] = []
of_space name (subnet ∷ rest) =
    let others = of_space name rest in if subnet.space == name then subnet ∷ others else others

-- setSubnetsOnSpace
unfoldable pub set_subnets_on_space : Registry → TestSpace → TestSpace
unfolding of_space
set_subnets_on_space s space = record space { subnets = of_space space.name (all_subnets s) }

-- The body of the loop of setSubnetsOnStaticRoute
with_end : TestSubnet → TestStaticRoute → TestStaticRoute
with_end subnet route =
    if subnet.cidr == route.source_cidr
    then record route { source = subnet }
    else if subnet.cidr == route.destination_cidr
    then record route { destination = subnet }
    else route

with_ends : TestStaticRoute → List TestSubnet → TestStaticRoute
unfolding with_end
with_ends route [] = route
with_ends route (subnet ∷ rest) = with_ends (with_end subnet route) rest

-- setSubnetsOnStaticRoute
unfoldable pub set_subnets_on_static_route : Registry → TestStaticRoute → TestStaticRoute
unfolding with_ends
set_subnets_on_static_route s route = with_ends route (all_subnets s)
