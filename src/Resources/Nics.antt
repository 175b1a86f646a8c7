-- ===== src/Resources/Nics.antt =====
-- The network interfaces of interface.go: their fields and how they are read. The accessors return
-- fields, so they are the fields of the record.
use gomaasapi.Prelude.{Bool, Option, none, some, List, [], ok, ℤ}
use gomaasapi.Strings.{Text, codes}
use gomaasapi.Value.{Value, str, obj, Members}
use gomaasapi.Versions.{Version}
use gomaasapi.Http.{Platform}
use gomaasapi.Schema.{
  any, string, boolean, force_int, list, string_map, field_map, nil_or, FieldList, no_fields, need,
  or_default, Juju,
}
use gomaasapi.Reading.{
  ◌>>=◌, rewrap, typed, string_or_empty, map_of, at, Read, assert_string, assert_int, assert_bool,
  assert_map, assert_list, convert_to_string_slice, only_two_dot_oh, checked, read_items,
  select_and_read_all, select_and_read,
}
use gomaasapi.Resources.Networks.{Vlan, Link, vlan_2_0, link_2_0}

-- interface_
pub record Interface : Type 0 where
  pub resource_uri : Text
  pub id : ℤ
  pub name : Text
  pub type_name : Text
  pub enabled : Bool
  pub tags : List Text
  pub vlan : Option Vlan
  pub links : List Link
  pub mac_address : Text
  pub effective_mtu : ℤ
  pub parents : List Text
  pub children : List Text

module _ (P : Platform) (J : Juju P) where
  -- The VLAN of an interface, where it is an attribute map.
  unfoldable pub interface_vlan_of : Option (Members P.Float) → Read P (Option Vlan)
  interface_vlan_of none = ok none
  interface_vlan_of (some source) = do v ← rewrap P.errors.trace (vlan_2_0 P J source); ok (some v)

  unfoldable pub interface_fields : FieldList P.Float
  interface_fields = need (codes "resource_uri") string (
      need (codes "id") force_int (
        need (codes "name") string (
          need (codes "type") string (
            need (codes "enabled") boolean (
              need (codes "tags") (nil_or (list string)) (
                need (codes "vlan") (nil_or (string_map any)) (
                  need (codes "links") (list (string_map any)) (
                    or_default (codes "mac_address") (str []) (nil_or string) (
                      need (codes "effective_mtu") force_int (
                        need (codes "parents") (list string)
                          (need (codes "children") (list string) no_fields)))))))))))

  -- interface_2_0
  unfoldable pub interface_2_0 : Members P.Float → Read P Interface
  unfolding interface_fields interface_vlan_of
  interface_2_0 source = do
    coerced ←
        checked P J typed (codes "interface 2.0 schema check failed") (field_map interface_fields)
          (obj source)
    valid ← assert_map P coerced
    vlan ← interface_vlan_of (map_of (at (codes "vlan") valid))
    sources ← assert_list P (at (codes "links") valid)
    links ← rewrap P.errors.trace (read_items P J typed (codes "link") (link_2_0 P J) 0 sources)
    resource_uri ← assert_string P (at (codes "resource_uri") valid)
    id ← assert_int P (at (codes "id") valid)
    name ← assert_string P (at (codes "name") valid)
    type_name ← assert_string P (at (codes "type") valid)
    enabled ← assert_bool P (at (codes "enabled") valid)
    tags ← convert_to_string_slice P (at (codes "tags") valid)
    effective_mtu ← assert_int P (at (codes "effective_mtu") valid)
    parents ← convert_to_string_slice P (at (codes "parents") valid)
    children ← convert_to_string_slice P (at (codes "children") valid)
    ok (record {
      resource_uri = resource_uri;
      id = id;
      name = name;
      type_name = type_name;
      enabled = enabled;
      tags = tags;
      vlan = vlan;
      links = links;
      mac_address = string_or_empty (at (codes "mac_address") valid);
      effective_mtu = effective_mtu;
      parents = parents;
      children = children;
    })

  -- readInterface
  unfoldable pub read_interface : Version → Value P.Float → Read P Interface
  read_interface = select_and_read P J typed (codes "interface") (only_two_dot_oh P interface_2_0)

  -- readInterfaces
  unfoldable pub read_interfaces : Version → Value P.Float → Read P (List Interface)
  read_interfaces =
      select_and_read_all P J typed (codes "interface") (only_two_dot_oh P interface_2_0)
