-- ===== src/Tests/Networks.antt =====
-- The networks and IP addresses of the test server, at concrete data.
use gomaasapi.Prelude.{
  ◌+◌, ◌≡◌, refl, ◌⊎◌, true, false, none, some, [], ◌∷◌, ◌==◌, list_eq, nat_eq, ok, if◌then◌else◌,
}
use gomaasapi.Strings.{Text, codes, split}
use gomaasapi.Strings.Decimal.{atoi}
use gomaasapi.Value.{obj, member, end, str}
use gomaasapi.Http.{Platform, path_url}
use gomaasapi.Object.{
  resource_uri, no_fields, field, text, plain, parse, maasify, get_map, get_string,
}
use gomaasapi.Object.Maas.{MaasObject, get_maas_object, get_field, lookup}
use gomaasapi.TestServer.Addresses.{nil, four}
use gomaasapi.TestServer.Subnets.{Net}
use gomaasapi.TestServer.Registry.{clear}
use gomaasapi.TestServer.Networks.{NetworkServer, remove_ip_address, reserved_in}
use gomaasapi.TestServer.Store.{find, store}
use gomaasapi.TestServer.Networks.Laws.{held, remove_ip_address_lem}
use gomaasapi.TestServer.Networks.Handlers.{
  IpNets, NetworkAnswer, network_answer, nothing, one_address, reserve_ip_address_handler,
  release_ip_address_handler, marshal_ip_address, reserve_in_network, reserved_ip,
}
use gomaasapi.TestServer.Networks.Handlers.Laws.{release_ip_address_handler-reserve}
use gomaasapi.Tests.Bench.{bench}

-- Every JSON text is an object at this URI.
abbrev bench_with_object : Platform
bench_with_object = record bench {
  unmarshal = λ s. ok (obj (member resource_uri (str (codes "/api/1.0/ipaddresses/")) end));
}

abbrev some_net : Net
some_net = record {
  parse_ip = λ s. if s == [] then nil else four 0xa00_0007;
  ip_string = λ ip. codes "10.0.0.1";
  parse_cidr = λ s. some (four 0xa00_0000, 24, 32);
}

abbrev some_nets : IpNets
some_nets = record {
  holds = λ net ip. true;
  net_string = λ net. codes "10.0.0.0/24";
  masked_string = λ ip mask. codes "10.0.0.0/24";
}

abbrev lan : MaasObject bench_with_object
lan = record {
  values =
      field (codes "ip") (plain (text (codes "10.0.0.0")))
        (field (codes "netmask") (plain (text (codes "255.255.255.0"))) no_fields);
  client = none;
  uri = path_url (codes "/api/1.0/networks/lan/");
}

abbrev one_network : NetworkServer bench_with_object
one_network = record {
  nodes = [];
  networks = (codes "lan", lan) ∷ [];
  networks_per_node = [];
  ip_addresses_per_network = (codes "lan", codes "10.0.0.9" ∷ []) ∷ [];
  mac_addresses_per_network = [];
  devices = [];
  registry = clear;
  client = none;
  version = codes "1.0";
}

remove_ip_address_lem_example :
    ((remove_ip_address bench_with_object (codes "10.0.0.9") one_network ≡ (false, one_network))
      × (held bench_with_object (codes "10.0.0.9") one_network ≡ 0))
    ⊎ ((s' : NetworkServer bench_with_object) × (remove_ip_address bench_with_object
            (codes "10.0.0.9")
            one_network
          ≡ (true, s'))
        × ((other : Text)
            → held bench_with_object other s' + (if other == codes "10.0.0.9" then 1 else 0)
              ≡ held bench_with_object other one_network))
remove_ip_address_lem_example =
    remove_ip_address_lem bench_with_object (codes "10.0.0.9") one_network

abbrev reserved : NetworkServer bench_with_object
reserved = record one_network {
  ip_addresses_per_network = (codes "lan", codes "10.0.0.9" ∷ codes "10.0.0.7" ∷ []) ∷ [];
}

abbrev reservation : NetworkAnswer bench_with_object
reservation = network_answer bench_with_object 200 (
    one_address (record {
      values = field resource_uri (plain (text (codes "/api/1.0/ipaddresses/"))) no_fields;
      client = none;
      uri = path_url (codes "/api/1.0/ipaddresses/");
    }))

reserving :
    reserve_ip_address_handler bench_with_object some_net some_nets
      (codes "now")
      (codes "10.0.0.0/24")
      (codes "10.0.0.7")
      one_network
    ≡ some (reservation, reserved)
unfolding reserve_ip_address_handler list_eq codes get_field get_string lookup nat_eq split atoi
    reserve_in_network marshal_ip_address parse maasify get_maas_object get_map reserved_in store
    find reserved_ip
reserving = refl

release_ip_address_handler-reserve_example :
    (held bench_with_object (codes "10.0.0.7") reserved
      ≡ held bench_with_object (codes "10.0.0.7") one_network + 1)
    × (s : NetworkServer bench_with_object) × (release_ip_address_handler bench_with_object some_net
          some_nets
          (codes "now")
          (codes "10.0.0.7")
          reserved
        ≡ (network_answer bench_with_object 200 nothing, s))
    × ((address : Text)
        → held bench_with_object address s ≡ held bench_with_object address one_network)
unfolding list_eq codes
release_ip_address_handler-reserve_example =
    release_ip_address_handler-reserve bench_with_object some_net some_nets (codes "now")
      (codes "10.0.0.0/24") (codes "10.0.0.7") one_network reserved reservation refl reserving refl
