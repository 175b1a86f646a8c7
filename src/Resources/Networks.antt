-- ===== src/Resources/Networks.antt =====
-- vlan.go, subnet.go and link.go. The accessors return fields, so they are the fields of the
-- records; a nil pointer is `none`.
use gomaasapi.Prelude.{Bool, Option, none, some, List, [], ok, ℤ}
use gomaasapi.Strings.{Text, codes}
use gomaasapi.Value.{Value, str, obj, Members, field}
use gomaasapi.Versions.{Version}
use gomaasapi.Http.{Platform}
use gomaasapi.Schema.{
  any, string, boolean, force_int, list, string_map, field_map, nil_or, FieldList, no_fields, need,
  or_default, or_omit, Juju,
}
use gomaasapi.Reading.{
  ◌>>=◌, rewrap, plain, typed, string_or_empty, at, Read, assert_string, assert_int, assert_bool,
  assert_map, convert_to_string_slice, only_two_dot_oh, checked, read_all,
}

-- vlan
pub record Vlan : Type 0 where
  pub resource_uri : Text
  pub id : ℤ
  pub name : Text
  pub fabric : Text
  pub vid : ℤ
  pub mtu : ℤ
  pub dhcp : Bool
  pub primary_rack : Text
  pub secondary_rack : Text

-- subnet
pub record Subnet : Type 0 where
  pub resource_uri : Text
  pub id : ℤ
  pub name : Text
  pub space : Text
  pub vlan : Option Vlan
  pub gateway : Text
  pub cidr : Text
  pub dns_servers : List Text

-- link
pub record Link : Type 0 where
  pub id : ℤ
  pub mode : Text
  pub subnet : Option Subnet
  pub ip_address : Text

module _ (P : Platform) (J : Juju P) where
  unfoldable pub vlan_fields : FieldList P.Float
  vlan_fields = need (codes "id") force_int (
      need (codes "resource_uri") string (
        need (codes "name") (nil_or string) (
          need (codes "fabric") string (
            need (codes "vid") force_int (
              need (codes "mtu") force_int (
                need (codes "dhcp_on") boolean (
                  need (codes "primary_rack") (nil_or string)
                    (need (codes "secondary_rack") (nil_or string) no_fields))))))))

  -- vlan_2_0
  unfoldable pub vlan_2_0 : Members P.Float → Read P Vlan
  unfolding vlan_fields
  vlan_2_0 source = do
    coerced ←
        checked P J plain (codes "vlan 2.0 schema check failed") (field_map vlan_fields)
          (obj source)
    valid ← assert_map P coerced
    resource_uri ← assert_string P (at (codes "resource_uri") valid)
    id ← assert_int P (at (codes "id") valid)
    fabric ← assert_string P (at (codes "fabric") valid)
    vid ← assert_int P (at (codes "vid") valid)
    mtu ← assert_int P (at (codes "mtu") valid)
    dhcp ← assert_bool P (at (codes "dhcp_on") valid)
    ok (record {
      resource_uri = resource_uri;
      id = id;
      name = string_or_empty (at (codes "name") valid);
      fabric = fabric;
      vid = vid;
      mtu = mtu;
      dhcp = dhcp;
      primary_rack = string_or_empty (at (codes "primary_rack") valid);
      secondary_rack = string_or_empty (at (codes "secondary_rack") valid);
    })

  -- readVLANs
  unfoldable pub read_vlans : Version → Value P.Float → Read P (List Vlan)
  read_vlans = read_all P J plain (codes "vlan") (only_two_dot_oh P vlan_2_0)

  unfoldable pub subnet_fields : FieldList P.Float
  subnet_fields = need (codes "resource_uri") string (
      need (codes "id") force_int (
        need (codes "name") string (
          need (codes "space") string (
            need (codes "gateway_ip") (nil_or string) (
              need (codes "cidr") string (
                need (codes "vlan") (string_map any)
                  (need (codes "dns_servers") (nil_or (list string)) no_fields)))))))

  -- subnet_2_0
  unfoldable pub subnet_2_0 : Members P.Float → Read P Subnet
  unfolding subnet_fields
  subnet_2_0 source = do
    coerced ←
        checked P J plain (codes "subnet 2.0 schema check failed") (field_map subnet_fields)
          (obj source)
    valid ← assert_map P coerced
    vlan_source ← assert_map P (at (codes "vlan") valid)
    vlan ← rewrap P.errors.trace (vlan_2_0 vlan_source)
    resource_uri ← assert_string P (at (codes "resource_uri") valid)
    id ← assert_int P (at (codes "id") valid)
    name ← assert_string P (at (codes "name") valid)
    space ← assert_string P (at (codes "space") valid)
    cidr ← assert_string P (at (codes "cidr") valid)
    dns_servers ← convert_to_string_slice P (at (codes "dns_servers") valid)
    ok (record {
      resource_uri = resource_uri;
      id = id;
      name = name;
      space = space;
      vlan = some vlan;
      gateway = string_or_empty (at (codes "gateway_ip") valid);
      cidr = cidr;
      dns_servers = dns_servers;
    })

  -- readSubnets
  unfoldable pub read_subnets : Version → Value P.Float → Read P (List Subnet)
  read_subnets = read_all P J plain (codes "subnet") (only_two_dot_oh P subnet_2_0)

  -- The subnet of a link: read where it is given.
  unfoldable pub link_subnet_of : Option (Value P.Float) → Read P (Option Subnet)
  link_subnet_of none = ok none
  link_subnet_of (some v) = do
    source ← assert_map P v
    s ← rewrap P.errors.trace (subnet_2_0 source)
    ok (some s)

  unfoldable pub link_fields : FieldList P.Float
  link_fields = need (codes "id") force_int (
      need (codes "mode") string (
        or_omit (codes "subnet") (string_map any)
          (or_default (codes "ip_address") (str []) string no_fields)))

  -- link_2_0
  unfoldable pub link_2_0 : Members P.Float → Read P Link
  unfolding link_fields link_subnet_of
  link_2_0 source = do
    coerced ←
        checked P J typed (codes "link 2.0 schema check failed") (field_map link_fields)
          (obj source)
    valid ← assert_map P coerced
    subnet ← link_subnet_of (field (codes "subnet") valid)
    id ← assert_int P (at (codes "id") valid)
    mode ← assert_string P (at (codes "mode") valid)
    ip_address ← assert_string P (at (codes "ip_address") valid)
    ok (record { id = id; mode = mode; subnet = subnet; ip_address = ip_address })

  -- readLinks
  unfoldable pub read_links : Version → Value P.Float → Read P (List Link)
  read_links = read_all P J typed (codes "link") (only_two_dot_oh P link_2_0)
