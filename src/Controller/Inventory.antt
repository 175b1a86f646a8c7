-- ===== src/Controller/Inventory.antt =====
-- The operations of controller.go that read lists of objects, and those on devices and machines.
use gomaasapi.Prelude.{List, [], ◌∷◌, if◌then◌else◌, ◌==◌, nat_eq, list_eq, err, ◌>>=◌, return}
use gomaasapi.Strings.{Text, codes}
use gomaasapi.Params.{Values, new_url_params, maybe_add, maybe_add_many}
use gomaasapi.Errors.{new_unexpected_error, new_bad_request_error}
use gomaasapi.Errors.Translate.{Cases, bad_request, translate}
use gomaasapi.Versions.{Version}
use gomaasapi.Value.{Value}
use gomaasapi.Http.{Platform}
use gomaasapi.Schema.{Juju}
use gomaasapi.Reading.{returned, Read}
use gomaasapi.Resources.Fabrics.{
  Fabric, Space, StaticRoute, read_fabrics, read_spaces, read_static_routes,
}
use gomaasapi.Resources.Places.{
  BootResource, Zone, Pool, Domain, read_boot_resources, read_zones, read_pools, read_domains,
}
use gomaasapi.Resources.Hosts.{Machine, Device, read_machines, read_devices, read_device}
use gomaasapi.Controller.{Controller, get, get_query, post}
use gomaasapi.Controller.Answers.{Reading, failing, reading}
use gomaasapi.Controller.Operations.{owner_data_matches}

-- DevicesArgs, CreateDeviceArgs and MachinesArgs
pub record DevicesArgs : Type 0 where
  pub hostname : List Text
  pub mac_addresses : List Text
  pub system_ids : List Text
  pub domain : Text
  pub zone : Text
  pub pool : Text
  pub agent_name : Text

pub record CreateDeviceArgs : Type 0 where
  pub hostname : Text
  pub mac_addresses : List Text
  pub domain : Text
  pub parent : Text

pub record MachinesArgs : Type 0 where
  pub hostnames : List Text
  pub mac_addresses : List Text
  pub system_ids : List Text
  pub domain : Text
  pub zone : Text
  pub pool : Text
  pub agent_name : Text
  pub owner_data : List (Text × Text)

unfoldable pub devices_params : DevicesArgs → Values
devices_params a = maybe_add (codes "agent_name") a.agent_name (
    maybe_add (codes "pool") a.pool (
      maybe_add (codes "zone") a.zone (
        maybe_add (codes "domain") a.domain (
          maybe_add_many (codes "id") a.system_ids (
            maybe_add_many (codes "mac_address") a.mac_addresses
              (maybe_add_many (codes "hostname") a.hostname new_url_params))))))

unfoldable pub create_device_params : CreateDeviceArgs → Values
create_device_params a = maybe_add (codes "parent") a.parent (
    maybe_add_many (codes "mac_addresses") a.mac_addresses (
      maybe_add (codes "domain") a.domain (maybe_add (codes "hostname") a.hostname new_url_params)))

unfoldable pub machines_params : MachinesArgs → Values
machines_params a = maybe_add (codes "agent_name") a.agent_name (
    maybe_add (codes "pool") a.pool (
      maybe_add (codes "zone") a.zone (
        maybe_add (codes "domain") a.domain (
          maybe_add_many (codes "id") a.system_ids (
            maybe_add_many (codes "mac_address") a.mac_addresses
              (maybe_add_many (codes "hostname") a.hostnames new_url_params))))))

-- The loop of `Machines`: the machines whose owner data match are kept.
unfoldable pub matching_machines : List (Text × Text) → List Machine → List Machine
matching_machines filter [] = []
matching_machines filter (m ∷ machines) =
    let rest = matching_machines filter machines in
    if owner_data_matches m.owner_data filter then m ∷ rest else rest

abbrev pub create_device_cases : Cases
create_device_cases = (400, bad_request) ∷ []

module _ (P : Platform) (J : Juju P) (c : Controller) where
  -- A list that is asked for by its path and read.
  unfoldable pub listed :
      {A : Type 0} → Text → (Version → Value P.Float → Read P (List A)) → Reading P (List A)
  listed path read = do
    source ← failing P (new_unexpected_error P.errors) (get P c path)
    reading P (read c.api_version source)

  -- BootResources, Fabrics, Spaces, StaticRoutes, Zones, Pools and Domains
  unfoldable pub boot_resources : Reading P (List BootResource)
  unfolding listed
  boot_resources = listed (codes "boot-resources") (read_boot_resources P J)

  unfoldable pub fabrics : Reading P (List Fabric)
  unfolding listed
  fabrics = listed (codes "fabrics") (read_fabrics P J)

  unfoldable pub spaces : Reading P (List Space)
  unfolding listed
  spaces = listed (codes "spaces") (read_spaces P J)

  unfoldable pub static_routes : Reading P (List StaticRoute)
  unfolding listed
  static_routes = listed (codes "static-routes") (read_static_routes P J)

  unfoldable pub zones : Reading P (List Zone)
  unfolding listed
  zones = listed (codes "zones") (read_zones P J)

  unfoldable pub pools : Reading P (List Pool)
  unfolding listed
  pools = listed (codes "pools") (read_pools P J)

  unfoldable pub domains : Reading P (List Domain)
  unfolding listed
  domains = listed (codes "domains") (λ version source. read_domains P J source)

  -- Devices
  unfoldable pub devices : DevicesArgs → Reading P (List Device)
  devices args = do
    source ←
        failing P (new_unexpected_error P.errors)
          (get_query P c (codes "devices") (devices_params args))
    reading P (read_devices P J c.api_version source)

  -- The request of `CreateDevice`, and what it answers
  posted_device : CreateDeviceArgs → Reading P Device
  posted_device args = do
    result ←
        failing P (translate P.errors create_device_cases)
          (post P c (codes "devices") [] (create_device_params args))
    reading P (read_device P J c.api_version result)

  -- CreateDevice
  unfoldable pub create_device : CreateDeviceArgs → Reading P Device
  unfolding posted_device
  create_device args w =
      if args.mac_addresses == []
      then (
        err (
            returned (
              new_bad_request_error P.errors (codes "at least one MAC address must be specified"))),
        w,
      )
      else posted_device args w

  -- Machines
  unfoldable pub machines : MachinesArgs → Reading P (List Machine)
  machines args = do
    source ←
        failing P (new_unexpected_error P.errors)
          (get_query P c (codes "machines") (machines_params args))
    read ← reading P (read_machines P J c.api_version source)
    return (matching_machines args.owner_data read)
