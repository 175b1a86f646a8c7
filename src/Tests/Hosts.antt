-- ===== src/Tests/Hosts.antt =====
-- Machines and their interfaces, at concrete data.
use gomaasapi.Prelude.{
  ◌≡◌, ◌↔◌, ◌⊎◌, true, none, some, List, [], ◌∷◌, ◌++◌, list_eq, nat_eq, int_eq, ℤ, pos,
}
use gomaasapi.Strings.{Text, codes}
use gomaasapi.Errors.{ErrorValue, not_valid}
use gomaasapi.Http.{World}
use gomaasapi.Resources.Networks.{Subnet, Link}
use gomaasapi.Resources.Nics.{Interface}
use gomaasapi.Resources.Storage.{Partition, BlockDevice}
use gomaasapi.Resources.Hosts.{Machine}
use gomaasapi.Controller.{Controller}
use gomaasapi.Interfaces.{
  UpdateInterfaceArgs, LinkSubnetArgs, link_mode_dhcp, link_mode_static, link_mode_link_up,
  link_subnet_args_validate, update, link_subnet, unlink_subnet,
}
use gomaasapi.Interfaces.Laws.{
  StaticOptions, link_subnet_args_validate_iff, DoneOrKept, operations-DoneOrKept,
}
use gomaasapi.Machines.{StartArgs, start, set_owner_data}
use gomaasapi.Machines.Laws.{Updated, machine_operations-Updated}
use gomaasapi.Tests.Juju.{juju}
use gomaasapi.Tests.Bench.{bench, world, client, answered}

abbrev pub controller : Controller
controller = record {
  client = client;
  api_version = record { major = 2; minor = 0 };
  capabilities = [];
}

abbrev pub subnet : ℤ → Subnet
subnet id = record {
  resource_uri = [];
  id = id;
  name = codes "lan";
  space = [];
  vlan = none;
  gateway = [];
  cidr = [];
  dns_servers = [];
}

abbrev pub links : List Link
links =
    record { id = pos 7; mode = codes "DHCP"; subnet = none; ip_address = [] }
    ∷ record { id = pos 8; mode = codes "DHCP"; subnet = some (subnet (pos 2)); ip_address = [] }
    ∷ []

abbrev pub eth : Interface
eth = record {
  resource_uri = codes "/interfaces/1/";
  id = pos 1;
  name = codes "eth0";
  type_name = codes "physical";
  enabled = true;
  tags = [];
  vlan = none;
  links = links;
  mac_address = [];
  effective_mtu = pos 1500;
  parents = [];
  children = [];
}

abbrev link_args : Text → LinkSubnetArgs
link_args mode = record {
  mode = mode;
  subnet = some (subnet (pos 3));
  ip_address = [];
  default_gateway = true;
}

link_subnet_args_validate_iff_example :
    (link_subnet_args_validate bench (link_args link_mode_static) ≡ none) ↔ (
      ((link_mode_static ≡ link_mode_dhcp)
        ⊎ (link_mode_static ≡ link_mode_link_up)
        ⊎ (link_mode_static ≡ link_mode_static))
      × ((s : Subnet) × (some (subnet (pos 3)) ≡ some s))
      × StaticOptions bench (link_args link_mode_static))
link_subnet_args_validate_iff_example =
    link_subnet_args_validate_iff bench (link_args link_mode_static)

abbrev update_args : UpdateInterfaceArgs
update_args = record { name = codes "eth1"; mac_address = []; vlan = none }

abbrev answering : World bench
answering = world (answered 200 [] (codes "{}") ∷ [])

operations-DoneOrKept_example :
    DoneOrKept bench juju controller eth (update bench juju controller update_args eth answering)
    × DoneOrKept bench juju controller eth
        (link_subnet bench juju controller (link_args link_mode_static) eth answering)
    × DoneOrKept bench juju controller eth
        (unlink_subnet bench juju controller (some (subnet (pos 2))) eth answering)
operations-DoneOrKept_example =
    operations-DoneOrKept bench juju controller update_args (link_args link_mode_static)
      (some (subnet (pos 2))) eth answering

abbrev gateway_error : ErrorValue
gateway_error = not_valid (codes "specifying DefaultGateway for Mode " ++ link_mode_dhcp)

abbrev pub partition : ℤ → Partition
partition id = record {
  resource_uri = [];
  id = id;
  path = [];
  uuid = [];
  used_for = [];
  size = 0;
  tags = [];
  filesystem = none;
}

abbrev pub disk : ℤ → List Partition → BlockDevice
disk id partitions = record {
  resource_uri = [];
  id = id;
  uuid = [];
  name = codes "sda";
  model = [];
  id_path = [];
  path = [];
  used_for = [];
  tags = [];
  block_size = 512;
  used_size = 0;
  size = 1024;
  filesystem = none;
  partitions = partitions;
}

abbrev pub host : Machine
host = record {
  resource_uri = codes "/machines/1/";
  system_id = codes "1";
  hostname = codes "host";
  fqdn = codes "host.maas";
  tags = [];
  owner_data = [];
  operating_system = [];
  distro_series = [];
  architecture = [];
  memory = pos 1024;
  cpu_count = pos 1;
  ip_addresses = [];
  power_state = [];
  status_name = [];
  status_message = [];
  boot_interface = some eth;
  interface_set = eth ∷ [];
  zone = none;
  pool = none;
  physical_block_devices = [];
  block_devices =
      disk (pos 1) (partition (pos 1) ∷ []) ∷ disk (pos 2) (partition (pos 4) ∷ []) ∷ [];
}

abbrev start_args : StartArgs
start_args = record { user_data = []; distro_series = codes "xenial"; kernel = []; comment = [] }

machine_operations-Updated_example :
    Updated bench juju controller host (start bench juju controller start_args host answering)
    × Updated bench juju controller host
        (set_owner_data bench juju controller ((codes "k", codes "v") ∷ []) host answering)
machine_operations-Updated_example =
    machine_operations-Updated bench juju controller start_args ((codes "k", codes "v") ∷ []) host
      answering
