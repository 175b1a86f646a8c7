-- ===== src/Resources/Hosts.antt =====
-- The machines of machine.go and the devices of device.go: their fields, and how they are read. The
-- accessors return fields, so they are the fields of the records; a nil pointer is `none`.
use gomaasapi.Prelude.{Option, none, some, List, [], ok, ℤ}
use gomaasapi.Strings.{Text, codes}
use gomaasapi.Value.{Value, null, str, obj, Members}
use gomaasapi.Versions.{Version}
use gomaasapi.Http.{Platform}
use gomaasapi.Schema.{
  any, string, force_int, list, string_map, field_map, nil_or, FieldList, no_fields, need,
  or_default, Juju,
}
use gomaasapi.Reading.{
  ◌>>=◌, rewrap, typed, string_or_empty, map_of, at, Read, assert_string, assert_int, assert_map,
  assert_list, convert_to_string_slice, convert_to_string_map, only_two_dot_oh, checked, read_items,
  select_and_read_all, select_and_read,
}
use gomaasapi.Resources.Nics.{Interface, interface_2_0}
use gomaasapi.Resources.Places.{Zone, Pool, zone_2_0, pool_2_0}
use gomaasapi.Resources.Storage.{BlockDevice, blockdevice_2_0}

-- machine, but for its pointer to the controller
pub record Machine : Type 0 where
  pub resource_uri : Text
  pub system_id : Text
  pub hostname : Text
  pub fqdn : Text
  pub tags : List Text
  pub owner_data : List (Text × Text)
  pub operating_system : Text
  pub distro_series : Text
  pub architecture : Text
  pub memory : ℤ
  pub cpu_count : ℤ
  pub ip_addresses : List Text
  pub power_state : Text
  pub status_name : Text
  pub status_message : Text
  pub boot_interface : Option Interface
  pub interface_set : List Interface
  pub zone : Option Zone
  pub pool : Option Pool
  pub physical_block_devices : List BlockDevice
  pub block_devices : List BlockDevice

-- device, but for its pointer to the controller
pub record Device : Type 0 where
  pub resource_uri : Text
  pub system_id : Text
  pub hostname : Text
  pub fqdn : Text
  pub parent : Text
  pub owner : Text
  pub ip_addresses : List Text
  pub interface_set : List Interface
  pub zone : Option Zone
  pub pool : Option Pool

module _ (P : Platform) (J : Juju P) where
  -- The boot interface of a machine, where it is an attribute map.
  unfoldable pub boot_interface_of : Option (Members P.Float) → Read P (Option Interface)
  boot_interface_of none = ok none
  boot_interface_of (some source) = do
    i ← rewrap P.errors.trace (interface_2_0 P J source)
    ok (some i)

  -- The pool of a machine or a device, where it is not nil.
  unfoldable pub pool_of : Value P.Float → Read P (Option Pool)
  pool_of null = ok none
  pool_of v = do
    source ← assert_map P v
    p ← rewrap P.errors.trace (pool_2_0 P J source)
    ok (some p)

  unfoldable pub machine_fields : FieldList P.Float
  machine_fields = need (codes "resource_uri") string (
      need (codes "system_id") string (
        need (codes "hostname") string (
          need (codes "fqdn") string (
            need (codes "tag_names") (list string) (
              need (codes "owner_data") (string_map string) (
                need (codes "osystem") string (
                  need (codes "distro_series") string (
                    or_default (codes "architecture") (str []) (nil_or string) (
                      need (codes "memory") force_int (
                        need (codes "cpu_count") force_int (
                          need (codes "ip_addresses") (list string) (
                            need (codes "power_state") string (
                              need (codes "status_name") string (
                                need (codes "status_message") (nil_or string) (
                                  need (codes "boot_interface") (nil_or (string_map any)) (
                                    need (codes "interface_set") (list (string_map any)) (
                                      need (codes "zone") (string_map any) (
                                        need (codes "pool") (nil_or any) (
                                          need (codes "physicalblockdevice_set")
                                            (list (string_map any))
                                            (need (codes "blockdevice_set") (list (string_map any))
                                              no_fields))))))))))))))))))))

  -- machine_2_0
  unfoldable pub machine_2_0 : Members P.Float → Read P Machine
  unfolding machine_fields boot_interface_of
  machine_2_0 source = do
    coerced ←
        checked P J typed (codes "machine 2.0 schema check failed") (field_map machine_fields)
          (obj source)
    valid ← assert_map P coerced
    boot_interface ← boot_interface_of (map_of (at (codes "boot_interface") valid))
    interfaces ← assert_list P (at (codes "interface_set") valid)
    interface_set ←
        rewrap P.errors.trace
          (read_items P J typed (codes "interface") (interface_2_0 P J) 0 interfaces)
    zone_source ← assert_map P (at (codes "zone") valid)
    zone ← rewrap P.errors.trace (zone_2_0 P J zone_source)
    pool ← pool_of (at (codes "pool") valid)
    physical ← assert_list P (at (codes "physicalblockdevice_set") valid)
    physical_block_devices ←
        rewrap P.errors.trace
          (read_items P J typed (codes "blockdevice") (blockdevice_2_0 P J) 0 physical)
    devices ← assert_list P (at (codes "blockdevice_set") valid)
    block_devices ←
        rewrap P.errors.trace
          (read_items P J typed (codes "blockdevice") (blockdevice_2_0 P J) 0 devices)
    resource_uri ← assert_string P (at (codes "resource_uri") valid)
    system_id ← assert_string P (at (codes "system_id") valid)
    hostname ← assert_string P (at (codes "hostname") valid)
    fqdn ← assert_string P (at (codes "fqdn") valid)
    tags ← convert_to_string_slice P (at (codes "tag_names") valid)
    owner_data ← convert_to_string_map P (at (codes "owner_data") valid)
    operating_system ← assert_string P (at (codes "osystem") valid)
    distro_series ← assert_string P (at (codes "distro_series") valid)
    memory ← assert_int P (at (codes "memory") valid)
    cpu_count ← assert_int P (at (codes "cpu_count") valid)
    ip_addresses ← convert_to_string_slice P (at (codes "ip_addresses") valid)
    power_state ← assert_string P (at (codes "power_state") valid)
    status_name ← assert_string P (at (codes "status_name") valid)
    ok (record {
      resource_uri = resource_uri;
      system_id = system_id;
      hostname = hostname;
      fqdn = fqdn;
      tags = tags;
      owner_data = owner_data;
      operating_system = operating_system;
      distro_series = distro_series;
      architecture = string_or_empty (at (codes "architecture") valid);
      memory = memory;
      cpu_count = cpu_count;
      ip_addresses = ip_addresses;
      power_state = power_state;
      status_name = status_name;
      status_message = string_or_empty (at (codes "status_message") valid);
      boot_interface = boot_interface;
      interface_set = interface_set;
      zone = some zone;
      pool = pool;
      physical_block_devices = physical_block_devices;
      block_devices = block_devices;
    })

  -- readMachine
  unfoldable pub read_machine : Version → Value P.Float → Read P Machine
  read_machine = select_and_read P J typed (codes "machine") (only_two_dot_oh P machine_2_0)

  -- readMachines
  unfoldable pub read_machines : Version → Value P.Float → Read P (List Machine)
  read_machines = select_and_read_all P J typed (codes "machine") (only_two_dot_oh P machine_2_0)

  unfoldable pub device_fields : FieldList P.Float
  device_fields = need (codes "resource_uri") string (
      need (codes "system_id") string (
        need (codes "hostname") string (
          need (codes "fqdn") string (
            or_default (codes "parent") (str []) (nil_or string) (
              or_default (codes "owner") (str []) (nil_or string) (
                need (codes "ip_addresses") (list string) (
                  need (codes "interface_set") (list (string_map any)) (
                    need (codes "zone") (string_map any)
                      (need (codes "pool") (nil_or (string_map any)) no_fields)))))))))

  -- device_2_0
  unfoldable pub device_2_0 : Members P.Float → Read P Device
  unfolding device_fields
  device_2_0 source = do
    coerced ←
        checked P J typed (codes "device 2.0 schema check failed") (field_map device_fields)
          (obj source)
    valid ← assert_map P coerced
    interfaces ← assert_list P (at (codes "interface_set") valid)
    interface_set ←
        rewrap P.errors.trace
          (read_items P J typed (codes "interface") (interface_2_0 P J) 0 interfaces)
    zone_source ← assert_map P (at (codes "zone") valid)
    zone ← rewrap P.errors.trace (zone_2_0 P J zone_source)
    pool ← pool_of (at (codes "pool") valid)
    resource_uri ← assert_string P (at (codes "resource_uri") valid)
    system_id ← assert_string P (at (codes "system_id") valid)
    hostname ← assert_string P (at (codes "hostname") valid)
    fqdn ← assert_string P (at (codes "fqdn") valid)
    ip_addresses ← convert_to_string_slice P (at (codes "ip_addresses") valid)
    ok (record {
      resource_uri = resource_uri;
      system_id = system_id;
      hostname = hostname;
      fqdn = fqdn;
      parent = string_or_empty (at (codes "parent") valid);
      owner = string_or_empty (at (codes "owner") valid);
      ip_addresses = ip_addresses;
      interface_set = interface_set;
      zone = some zone;
      pool = pool;
    })

  -- readDevice
  unfoldable pub read_device : Version → Value P.Float → Read P Device
  read_device = select_and_read P J typed (codes "device") (only_two_dot_oh P device_2_0)

  -- readDevices
  unfoldable pub read_devices : Version → Value P.Float → Read P (List Device)
  read_devices = select_and_read_all P J typed (codes "device") (only_two_dot_oh P device_2_0)
