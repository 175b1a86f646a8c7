-- ===== src/Devices.antt =====
-- The operations of device.go on the interfaces of a device. A device holds a pointer to the
-- controller, which is a parameter; its deletion is in Controller/Operations.antt.
pub mod Laws
use gomaasapi.Prelude.{
  Bool, true, false, Option, none, some, List, [], ◌∷◌, ◌++◌, if◌then◌else◌, ◌==◌, nat_eq, list_eq,
  ℤ, pos, length, drop, Result, ok, err, Action, ◌>>=◌,
}
use gomaasapi.Strings.{Text, codes, has_prefix, join}
use gomaasapi.Strings.Decimal.{itoa}
use gomaasapi.Params.{Values, new_url_params, add, maybe_add, maybe_add_int, maybe_add_bool}
use gomaasapi.Errors.{not_valid}
use gomaasapi.Errors.Translate.{Cases, bad_request, permission, cannot_complete, translate}
use gomaasapi.Http.{Platform}
use gomaasapi.Schema.{Juju}
use gomaasapi.Reading.{Fault, returned}
use gomaasapi.Resources.Networks.{Vlan}
use gomaasapi.Resources.Nics.{Interface, read_interface}
use gomaasapi.Resources.Hosts.{Device}
use gomaasapi.Controller.{Controller, post}
use gomaasapi.Controller.Answers.{Reading, failing, reading}

-- CreateInterfaceArgs
pub record CreateInterfaceArgs : Type 0 where
  pub name : Text
  pub mac_address : Text
  pub vlan : Option Vlan
  pub tags : List Text
  pub mtu : ℤ
  pub accept_ra : Bool
  pub autoconf : Bool

-- `strings.Replace(s, old, new, 1)`, where `old` is not empty
unfoldable pub replace_first : Text → Text → Text → Text
replace_first old new [] = []
replace_first old new (c ∷ s) =
    let rest = replace_first old new s in
    if has_prefix (c ∷ s) old then new ++ drop (length old) (c ∷ s) else c ∷ rest

-- interfacesURI
unfoldable pub interfaces_uri : Device → Text
unfolding replace_first
interfaces_uri d =
    replace_first (codes "devices") (codes "nodes") d.resource_uri ++ codes "interfaces/"

abbrev pub create_interface_cases : Cases
create_interface_cases =
    (404, bad_request) ∷ (409, bad_request) ∷ (403, permission) ∷ (503, cannot_complete) ∷ []

-- The parameters of the request; the VLAN is there in arguments that pass validation.
unfoldable pub create_interface_params : CreateInterfaceArgs → Vlan → Values
create_interface_params a v = maybe_add_bool (codes "autoconf") a.autoconf (
    maybe_add_bool (codes "accept_ra") a.accept_ra (
      maybe_add_int (codes "mtu") a.mtu (
        maybe_add (codes "tags") (join a.tags (codes ",")) (
          add (codes "vlan") (itoa v.id)
            (add (codes "mac_address") a.mac_address (add (codes "name") a.name new_url_params))))))

module _ (P : Platform) where
  open P use {Err}

  -- CreateInterfaceArgs.Validate, which gives the VLAN or an error
  unfoldable pub create_interface_args_validate : CreateInterfaceArgs → Result Err Vlan
  create_interface_args_validate a =
      if a.name == []
      then err (P.errors.new (not_valid (codes "missing Name")))
      else if a.mac_address == []
      then err (P.errors.new (not_valid (codes "missing MACAddress")))
      else elim a.vlan [
        | none ↦ err (P.errors.new (not_valid (codes "missing VLAN")))
        | some v ↦ ok v
      ]

  module _ (J : Juju P) (c : Controller) where
    posted_interface : CreateInterfaceArgs → Vlan → Device → Reading P Interface
    posted_interface a v d = do
      result ←
          failing P (translate P.errors create_interface_cases)
            (post P c (interfaces_uri d) (codes "create_physical") (create_interface_params a v))
      reading P (read_interface P J c.api_version result)

    -- CreateInterface
    unfoldable pub create_interface : CreateInterfaceArgs → Device → Reading P Interface
    unfolding posted_interface
    create_interface a d w = elim (create_interface_args_validate a) [
      | err e ↦ (err (returned (P.errors.trace e)), w)
      | ok v ↦ posted_interface a v d w
    ]
