-- ===== src/Tests/Devices.antt =====
-- Devices and allocations, at concrete data.
use gomaasapi.Prelude.{◌≡◌, refl, ◌⊎◌, none, [], ◌∷◌, false, list_eq, nat_eq, pos, ok, err}
use gomaasapi.Strings.{codes}
use gomaasapi.Errors.{ErrorValue}
use gomaasapi.Value.{Value, str, num, int, obj, arr, end, member, nil, cons}
use gomaasapi.Http.{World}
use gomaasapi.Reading.{Fault, rewrap}
use gomaasapi.Reading.Sound.{NoPanic}
use gomaasapi.Resources.Hosts.{Device}
use gomaasapi.Controller.Inventory.{create_device}
use gomaasapi.Controller.Allocation.{Conversions, parse_allocate_constraints_response}
use gomaasapi.Controller.Allocation.Laws.{parse_allocate_constraints_response-NoPanic}
use gomaasapi.Machines.Devices.{
  CreateMachineDeviceArgs, create_machine_device_args_validate, create_machine_device, configure,
}
use gomaasapi.Machines.Devices.Laws.{device_args, Cleaned, create_machine_device_lem}
use gomaasapi.Tests.Juju.{juju}
use gomaasapi.Tests.Bench.{plain_errors, bench, world, answered}
use gomaasapi.Tests.Hosts.{controller, host}

-- Conversions for numbers that are whole, and for texts that are no numbers.
abbrev whole_numbers : Conversions bench.Float
whole_numbers = record {
  range = λ m. m;
  truncate = λ n. pos n;
  atoi = λ s. none;
  value_text = λ v. [];
}

abbrev constraints : Value bench.Float
constraints = obj (
    member (codes "constraints_by_type")
      (obj (
        member (codes "interfaces") (obj (member (codes "0") (arr (cons (int (pos 1)) nil)) end)) (
          member (codes "storage")
            (obj (
              member (codes "root") (arr (cons (num 2) (cons (str (codes "partition:4")) nil)))
                end))
            end)))
      end)

parse_allocate_constraints_response-NoPanic_example :
    NoPanic bench (parse_allocate_constraints_response bench juju whole_numbers constraints host)
parse_allocate_constraints_response-NoPanic_example =
    parse_allocate_constraints_response-NoPanic bench juju whole_numbers constraints host

abbrev new_device : CreateMachineDeviceArgs
new_device = record {
  hostname = codes "child";
  interface_name = codes "eth0";
  mac_address = codes "52:54:00:55:b6:80";
  subnet = none;
  vlan = none;
  same_vlan = false;
}

-- The device is made, and has no interface; it is deleted.
abbrev answering : World bench
answering = world (answered 200 [] (codes "bare device") ∷ answered 204 [] [] ∷ [])

new_device_valid : create_machine_device_args_validate bench new_device ≡ none
unfolding create_machine_device_args_validate codes list_eq nat_eq
new_device_valid = refl

create_machine_device_lem_example :
    ((f : Fault ErrorValue) × ((create_device bench juju controller
          (device_args new_device host)
          answering).0
        ≡ err f)
      × (create_machine_device bench juju controller new_device host answering ≡ (
        rewrap plain_errors.trace (err f),
        (create_device bench juju controller (device_args new_device host) answering).1,
      )))
    ⊎ ((d : Device) × ((create_device bench juju controller
            (device_args new_device host)
            answering).0
          ≡ ok d)
        × Cleaned bench juju controller d
            (configure bench juju controller new_device d d.interface_set
              (create_device bench juju controller (device_args new_device host) answering).1)
            (create_machine_device bench juju controller new_device host answering))
create_machine_device_lem_example =
    create_machine_device_lem bench juju controller new_device host answering
      (create_device bench juju controller (device_args new_device host) answering).1
      (create_device bench juju controller (device_args new_device host) answering).0
      new_device_valid refl
