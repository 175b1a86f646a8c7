-- ===== src/Machines.antt =====
-- machine.go, and what it uses of blockdevice.go, partition.go, filesystem.go, zone.go and pool.go.
-- The accessors of these types return fields, so they are the fields of the records; a nil pointer is
-- `none`. An operation that reads an answer may panic.
pub mod Laws
pub mod Devices
use gomaasapi.Prelude.{
  ℕ, Bool, true, false, Option, none, some, List, [], ◌∷◌, if◌then◌else◌, ◌==◌, nat_eq, int_eq, ℤ,
  Result, ok, err,
}
use gomaasapi.Strings.{Text, codes}
use gomaasapi.Params.{Values, new_url_params, add, maybe_add}
use gomaasapi.Errors.Translate.{Cases, bad_request, permission, cannot_complete, translate}
use gomaasapi.Value.{Value}
use gomaasapi.Http.{Platform, World}
use gomaasapi.Schema.{Juju}
use gomaasapi.Reading.{Fault, returned, panicked, rewrap, Read}
use gomaasapi.Resources.Nics.{Interface}
use gomaasapi.Resources.Storage.{Partition, BlockDevice}
use gomaasapi.Resources.Hosts.{Machine, read_machine}
use gomaasapi.Controller.{Controller, post}

-- updateFrom: the interfaces and the block devices are not among the fields it sets.
unfoldable pub update_machine_from : Machine → Machine → Machine
update_machine_from m other = record m {
  resource_uri = other.resource_uri;
  system_id = other.system_id;
  hostname = other.hostname;
  fqdn = other.fqdn;
  operating_system = other.operating_system;
  distro_series = other.distro_series;
  architecture = other.architecture;
  memory = other.memory;
  cpu_count = other.cpu_count;
  ip_addresses = other.ip_addresses;
  power_state = other.power_state;
  status_name = other.status_name;
  status_message = other.status_message;
  zone = other.zone;
  pool = other.pool;
  tags = other.tags;
  owner_data = other.owner_data;
}

-- The loop of `Interface`.
unfoldable pub interface_by_id : ℤ → List Interface → Option Interface
interface_by_id id [] = none
interface_by_id id (i ∷ interfaces) = if i.id == id then some i else interface_by_id id interfaces

-- Interface
unfoldable pub machine_interface : ℤ → Machine → Option Interface
unfolding interface_by_id
machine_interface id m = interface_by_id id m.interface_set

-- blockDeviceById
unfoldable pub block_device_by_id : ℤ → List BlockDevice → Option BlockDevice
block_device_by_id id [] = none
block_device_by_id id (b ∷ devices) = if b.id == id then some b else block_device_by_id id devices

-- PhysicalBlockDevice and BlockDevice
physical_block_device : ℤ → Machine → Option BlockDevice
physical_block_device id m = block_device_by_id id m.physical_block_devices

pub block_device : ℤ → Machine → Option BlockDevice
block_device id m = block_device_by_id id m.block_devices

-- The inner loop of `partitionById`.
unfoldable pub find_partition : ℤ → List Partition → Option Partition
find_partition id [] = none
find_partition id (p ∷ partitions) = if p.id == id then some p else find_partition id partitions

first_found : Option Partition → Option Partition → Option Partition
first_found (some p) next = some p
first_found none next = next

-- partitionById
unfoldable pub partition_by_id : ℤ → List BlockDevice → Option Partition
unfolding first_found find_partition
partition_by_id id [] = none
partition_by_id id (b ∷ devices) =
    first_found (find_partition id b.partitions) (partition_by_id id devices)

-- Partition
unfoldable pub machine_partition : ℤ → Machine → Option Partition
unfolding partition_by_id
machine_partition id m = partition_by_id id m.block_devices

-- StartArgs
pub record StartArgs : Type 0 where
  pub user_data : Text
  pub distro_series : Text
  pub kernel : Text
  pub comment : Text

abbrev pub start_cases : Cases
start_cases =
    (404, bad_request) ∷ (409, bad_request) ∷ (403, permission) ∷ (503, cannot_complete) ∷ []

start_params : StartArgs → Values
start_params a = maybe_add (codes "comment") a.comment (
    maybe_add (codes "hwe_kernel") a.kernel (
      maybe_add (codes "distro_series") a.distro_series
        (maybe_add (codes "user_data") a.user_data new_url_params)))

-- The loop of `SetOwnerData` over a map.
add_all : List (Text × Text) → Values → Values
add_all [] params = params
add_all ((key, value) ∷ data_left) params = add_all data_left (add key value params)

module _ (P : Platform) where
  open P use {Err}

  -- What an operation on a machine gives: nothing or an error, the machine, and the world.
  abbrev pub MachineOutcome : Type 0
  MachineOutcome = Read P (Unit {0}) × Machine × World P

  module _ (J : Juju P) (c : Controller) where
    read_update : Machine → Read P Machine → World P → MachineOutcome
    read_update m (err f) w = (rewrap P.errors.trace (err f), m, w)
    read_update m (ok other) w = (ok tt, update_machine_from m other, w)

    -- The error of a failed request, and the machine of an answer.
    finish_machine : (Err → Err) → Machine → Result Err (Value P.Float) × World P → MachineOutcome
    finish_machine f m (err e, w) = (err (returned (f e)), m, w)
    finish_machine f m (ok source, w) = read_update m (read_machine P J c.api_version source) w

    -- Start
    unfoldable pub start : StartArgs → Machine → World P → MachineOutcome
    unfolding start_params finish_machine read_update
    start a m w =
        finish_machine (translate P.errors start_cases) m
          (post P c m.resource_uri (codes "deploy") (start_params a) w)

    -- SetOwnerData, which goes through the map in some order
    unfoldable pub set_owner_data : List (Text × Text) → Machine → World P → MachineOutcome
    unfolding add_all finish_machine read_update
    set_owner_data owner_data m w =
        let (items, n) = P.map_order owner_data w.net in
        finish_machine P.errors.trace m (
          post P c m.resource_uri (codes "set_owner_data") (add_all items [])
            (record w { net = n }))
