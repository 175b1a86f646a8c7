-- ===== src/Interfaces.antt =====
-- interface.go, and what it uses of link.go, subnet.go and vlan.go. The accessors of these types
-- return fields, so they are the fields of the records; a nil pointer is `none`. The controller, to
-- which an interface holds a pointer, is a parameter. An operation that reads an answer may panic.
pub mod Laws
use gomaasapi.Prelude.{
  Bool, true, false, not, ◌&&◌, ◌||◌, Option, none, some, List, [], ◌∷◌, ◌++◌, if◌then◌else◌, ◌==◌,
  nat_eq, list_eq, int_eq, ℤ, pos, Result, ok, err,
}
use gomaasapi.Strings.{Text, codes}
use gomaasapi.Strings.Decimal.{itoa}
use gomaasapi.Params.{Values, new_url_params, add, maybe_add, maybe_add_int, maybe_add_bool}
use gomaasapi.Errors.{not_valid}
use gomaasapi.Errors.Translate.{
  Cases, no_match, bad_request, permission, cannot_complete, translate,
}
use gomaasapi.Value.{Value}
use gomaasapi.Http.{Platform, World}
use gomaasapi.Schema.{Juju}
use gomaasapi.Reading.{Fault, returned, panicked, rewrap, Read}
use gomaasapi.Resources.Networks.{Vlan, Subnet, Link}
use gomaasapi.Resources.Nics.{Interface, read_interface}
use gomaasapi.Controller.{Controller, put, post, delete}

-- UpdateInterfaceArgs
pub record UpdateInterfaceArgs : Type 0 where
  pub name : Text
  pub mac_address : Text
  pub vlan : Option Vlan

vlan_id_of : Option Vlan → ℤ
vlan_id_of none = pos 0
vlan_id_of (some v) = v.id

-- vlanID
vlan_id : UpdateInterfaceArgs → ℤ
vlan_id a = vlan_id_of a.vlan

-- The modes of a link.
abbrev pub link_mode_dhcp : Text
link_mode_dhcp = codes "DHCP"

abbrev pub link_mode_static : Text
link_mode_static = codes "STATIC"

abbrev pub link_mode_link_up : Text
link_mode_link_up = codes "LINK_UP"

-- LinkSubnetArgs
pub record LinkSubnetArgs : Type 0 where
  pub mode : Text
  pub subnet : Option Subnet
  pub ip_address : Text
  pub default_gateway : Bool

-- The cases of the operations' `switch` statements.
abbrev pub update_cases : Cases
update_cases = (404, no_match) ∷ (403, permission) ∷ []

abbrev pub link_cases : Cases
link_cases =
    (404, bad_request) ∷ (400, bad_request) ∷ (403, permission) ∷ (503, cannot_complete) ∷ []

abbrev pub unlink_cases : Cases
unlink_cases = (404, bad_request) ∷ (400, bad_request) ∷ (403, permission) ∷ []

-- `link.Subnet()` is there, and has this identifier.
unfoldable pub links_to : ℤ → Option Subnet → Bool
links_to id none = false
links_to id (some s) = s.id == id

-- linkForSubnet
unfoldable pub link_for_subnet : ℤ → List Link → Option Link
link_for_subnet id [] = none
link_for_subnet id (l ∷ links) = if links_to id l.subnet then some l else link_for_subnet id links

module _ (P : Platform) where
  open P use {Err}

  invalid : Text → Option Err
  invalid message = some (P.errors.new (not_valid message))

  known_mode : Text → Bool
  known_mode mode = mode == link_mode_dhcp || mode == link_mode_link_up || mode == link_mode_static

  validate_options : LinkSubnetArgs → Option Subnet → Option Err
  validate_options a none = invalid (codes "missing Subnet")
  validate_options a (some s) =
      if not (a.ip_address == []) && not (a.mode == link_mode_static)
      then invalid (codes "setting IP Address when Mode is not LinkModeStatic")
      else if a.default_gateway && not (a.mode == link_mode_static)
      then invalid (codes "specifying DefaultGateway for Mode " ++ P.quote a.mode)
      else none

  -- LinkSubnetArgs.Validate
  unfoldable pub link_subnet_args_validate : LinkSubnetArgs → Option Err
  unfolding validate_options known_mode invalid
  link_subnet_args_validate a =
      if known_mode a.mode
      then validate_options a a.subnet
      else if a.mode == []
      then invalid (codes "missing Mode")
      else invalid (codes "unknown Mode value (" ++ P.quote a.mode ++ codes ")")

  -- What an operation on an interface gives: nothing or an error, the interface, and the world.
  abbrev pub Outcome : Type 0
  Outcome = Read P (Unit {0}) × Interface × World P

  module _ (J : Juju P) (c : Controller) where
    -- An answer is read, and the interface updated from it (updateFrom); all fields are replaced.
    update_from : Interface → Read P Interface → World P → Outcome
    update_from i (err f) w = (rewrap P.errors.trace (err f), i, w)
    update_from i (ok response) w = (ok tt, response, w)

    -- A failed request is translated by the cases of the operation.
    finish : Cases → Interface → Result Err (Value P.Float) × World P → Outcome
    finish cases i (err e, w) = (err (returned (translate P.errors cases e)), i, w)
    finish cases i (ok source, w) = update_from i (read_interface P J c.api_version source) w

    is_empty : UpdateInterfaceArgs → Option Vlan → Bool
    is_empty a none = a.name == [] && a.mac_address == []
    is_empty a (some v) = false

    update_params : UpdateInterfaceArgs → Values
    update_params a = maybe_add_int (codes "vlan") (vlan_id a) (
        maybe_add (codes "mac_address") a.mac_address
          (maybe_add (codes "name") a.name new_url_params))

    -- Update
    unfoldable pub update : UpdateInterfaceArgs → Interface → World P → Outcome
    unfolding is_empty update_params finish update_from vlan_id vlan_id_of
    update a i w =
        if is_empty a a.vlan
        then (ok tt, i, w)
        else finish update_cases i (put P c i.resource_uri (update_params a) w)

    -- The identifier of the subnet, which validated arguments have.
    subnet_id : Option Subnet → ℤ
    subnet_id none = pos 0
    subnet_id (some s) = s.id

    link_params : LinkSubnetArgs → Values
    link_params a = maybe_add_bool (codes "default_gateway") a.default_gateway (
        maybe_add (codes "ip_address") a.ip_address (
          add (codes "subnet") (itoa (subnet_id a.subnet))
            (add (codes "mode") a.mode new_url_params)))

    -- LinkSubnet
    unfoldable pub link_subnet : LinkSubnetArgs → Interface → World P → Outcome
    unfolding link_params finish update_from subnet_id
    link_subnet a i w = elim (link_subnet_args_validate a) [
      | some e ↦ (err (returned (P.errors.trace e)), i, w)
      | none ↦ finish link_cases i (post P c i.resource_uri (codes "link_subnet") (link_params a) w)
    ]

    -- A link that is found is removed; its identifier is the parameter.
    unlink : Interface → Option Link → World P → Outcome
    unfolding finish update_from
    unlink i none w = (err (returned (P.errors.new (not_valid (codes "unlinked Subnet")))), i, w)
    unlink i (some l) w = finish unlink_cases i (
        post P c i.resource_uri (codes "unlink_subnet")
          (add (codes "id") (itoa l.id) new_url_params) w)

    -- UnlinkSubnet
    unfoldable pub unlink_subnet : Option Subnet → Interface → World P → Outcome
    unfolding unlink link_for_subnet
    unlink_subnet none i w =
        (err (returned (P.errors.new (not_valid (codes "missing Subnet")))), i, w)
    unlink_subnet (some s) i w = unlink i (link_for_subnet s.id i.links) w
