-- ===== src/Machines/Devices.antt =====
-- The operations of machine.go on the devices of a machine. A device that is made is deleted again
-- where it cannot be configured.
pub mod Laws
use gomaasapi.Prelude.{
  Bool, true, false, not, Option, none, some, List, [], ◌∷◌, ◌++◌, if◌then◌else◌, ◌==◌, nat_eq,
  list_eq, ℤ, pos, length, Result, ok, err, Action, ◌>>=◌, return, throw, ℕ,
}
use gomaasapi.Strings.{Text, codes}
use gomaasapi.Strings.Decimal.{itoa}
use gomaasapi.Errors.{not_valid, other_error, new_unexpected_error}
use gomaasapi.Http.{Platform, World}
use gomaasapi.Schema.{Juju}
use gomaasapi.Reading.{Fault, returned, panicked, Read, rewrap}
use gomaasapi.Resources.Networks.{Vlan, Subnet}
use gomaasapi.Resources.Nics.{Interface}
use gomaasapi.Resources.Hosts.{Machine, Device}
use gomaasapi.Interfaces.{
  UpdateInterfaceArgs, LinkSubnetArgs, link_mode_static, update, link_subnet,
}
use gomaasapi.Controller.{Controller}
use gomaasapi.Controller.Answers.{Reading, retraced}
use gomaasapi.Controller.Operations.{delete_resource}
use gomaasapi.Controller.Inventory.{DevicesArgs, CreateDeviceArgs, devices, create_device}

-- CreateMachineDeviceArgs. VLANs are compared as pointers: `same_vlan` says whether the VLAN given is
-- the very object that the subnet holds.
pub record CreateMachineDeviceArgs : Type 0 where
  pub hostname : Text
  pub interface_name : Text
  pub mac_address : Text
  pub subnet : Option Subnet
  pub vlan : Option Vlan
  pub same_vlan : Bool

-- The VLAN to use for the interface: the one given, or else the subnet's.
unfoldable pub vlan_to_use : CreateMachineDeviceArgs → Option Vlan
vlan_to_use a = elim a.vlan [
  | some v ↦ some v
  | none ↦ elim a.subnet [ none ↦ none | some s ↦ s.vlan ]
]

-- The loop of `Devices`: those whose parent is the machine.
unfoldable pub devices_of : Text → List Device → List Device
devices_of parent [] = []
devices_of parent (d ∷ devices) =
    let rest = devices_of parent devices in if d.parent == parent then d ∷ rest else rest

-- The device with its one interface as it is now.
with_interface : Device → Interface → Device
with_interface d i = record d { interface_set = i ∷ [] }

module _ (P : Platform) where
  open P use {Err}

  invalid : Text → Option (Fault Err)
  invalid message = some (returned (P.errors.new (not_valid message)))

  -- The VLAN of the subnet is another than the one given; the message asks for its identifier, which
  -- panics where there is none.
  match_vlan : CreateMachineDeviceArgs → Subnet → Vlan → Option Vlan → Option (Fault Err)
  unfolding invalid
  match_vlan a s v none = some panicked
  match_vlan a s v (some u) =
      if a.same_vlan
      then none
      else invalid (
          codes "given subnet "
          ++ P.quote s.cidr
          ++ codes " on VLAN "
          ++ itoa u.id
          ++ codes " does not match given VLAN "
          ++ itoa v.id)

  validate_vlan : CreateMachineDeviceArgs → Option Subnet → Option Vlan → Option (Fault Err)
  unfolding match_vlan
  validate_vlan a (some s) (some v) = match_vlan a s v s.vlan
  validate_vlan a s v = none

  -- CreateMachineDeviceArgs.Validate
  unfoldable pub create_machine_device_args_validate : CreateMachineDeviceArgs → Option (Fault Err)
  unfolding validate_vlan invalid
  create_machine_device_args_validate a =
      if a.interface_name == []
      then invalid (codes "missing InterfaceName")
      else if a.mac_address == []
      then invalid (codes "missing MACAddress")
      else validate_vlan a a.subnet a.vlan

  module _ (J : Juju P) (c : Controller) where
    -- Devices
    unfoldable pub machine_devices : DevicesArgs → Machine → Reading P (List Device)
    machine_devices args m = do
      found ← retraced P (devices P J c args)
      return (devices_of m.system_id found)

    -- updateDeviceInterface; it gives the interface as it is then.
    unfoldable pub update_device_interface :
        Interface → Text → Option Vlan → World P → Read P Interface × World P
    update_device_interface i name vlan w =
        let (result, i', w') =
          update P J c (record { name = name; mac_address = []; vlan = vlan }) i w in
        elim result [
          | ok done ↦ (ok i', w')
          | err f ↦ (
            rewrap
                (λ e.
                  P.errors.annotate e
                    (codes "updating device interface " ++ P.quote i.name ++ codes " failed"))
                (err f),
            w',
          )
        ]

    -- linkDeviceInterfaceToSubnet
    unfoldable pub link_device_interface_to_subnet :
        Interface → Subnet → World P → Read P Interface × World P
    link_device_interface_to_subnet i s w =
        let (result, i', w') =
          link_subnet P J c
            (record {
              mode = link_mode_static;
              subnet = some s;
              ip_address = [];
              default_gateway = false;
            })
            i w in
        elim result [
          | ok done ↦ (ok i', w')
          | err f ↦ (
            rewrap
                (λ e. P.errors.annotate e (
                  codes "linking device interface "
                  ++ P.quote i.name
                  ++ codes " to subnet "
                  ++ P.quote s.cidr
                  ++ codes " failed"))
                (err f),
            w',
          )
        ]

    link_if_given : Device → Option Subnet → Interface → Reading P Device
    unfolding with_interface
    link_if_given d none i = return (with_interface d i)
    link_if_given d (some s) i = do
      linked ← retraced P (link_device_interface_to_subnet i s)
      return (with_interface d linked)

    wrong_count : ℕ → Err
    wrong_count n = new_unexpected_error P.errors (
        P.errors.new
          (other_error (codes "unexpected interface count for device: " ++ itoa (pos n))))

    -- What follows the making of the device: its one interface is updated, and linked.
    unfoldable pub configure : CreateMachineDeviceArgs → Device → List Interface → Reading P Device
    unfolding link_if_given wrong_count
    configure a d (i ∷ []) = do
      updated ← retraced P (update_device_interface i a.interface_name (vlan_to_use a))
      link_if_given d a.subnet updated
    configure a d interfaces = throw (returned (wrong_count (length interfaces)))

    -- The deferred deletion, where an error is returned; its own error is only logged.
    unfoldable pub clean_up : Device → Read P Device × World P → Read P Device × World P
    clean_up d (ok d', w) = (ok d', w)
    clean_up d (err panicked, w) = (err panicked, w)
    clean_up d (err (returned e), w) = (err (returned e), (delete_resource P c d.resource_uri w).1)

    configured : CreateMachineDeviceArgs → Device → Reading P Device
    configured a d w = clean_up d (configure a d d.interface_set w)

    machine_device : CreateMachineDeviceArgs → Machine → Reading P Device
    unfolding configured
    machine_device a m = do
      d ← retraced P (
          create_device P J c (record {
            hostname = a.hostname;
            mac_addresses = a.mac_address ∷ [];
            domain = [];
            parent = m.system_id;
          }))
      configured a d

    -- CreateDevice
    unfoldable pub create_machine_device : CreateMachineDeviceArgs → Machine → Reading P Device
    unfolding machine_device
    create_machine_device a m w = elim (create_machine_device_args_validate a) [
      | some f ↦ (rewrap P.errors.trace (err f), w)
      | none ↦ machine_device a m w
    ]
