-- ===== src/Resources/Fabrics.antt =====
-- space.go, fabric.go and staticroute.go, which hold subnets and vlans.
use gomaasapi.Prelude.{List, [], ◌∷◌, ◌++◌, ok, err, ℤ, pos, length}
use gomaasapi.Strings.{Text, codes}
use gomaasapi.Value.{Value, obj, Members}
use gomaasapi.Versions.{Version}
use gomaasapi.Http.{Platform}
use gomaasapi.Schema.{
  any, string, force_int, list, string_map, field_map, nil_or, FieldList, no_fields, need, Juju,
}
use gomaasapi.Reading.{
  returned, ◌>>=◌, rewrap, plain, string_or_empty, at, Read, assert_string, assert_int, assert_map,
  assert_list, only_two_dot_oh, checked, read_items, read_all,
}
use gomaasapi.Strings.Decimal.{itoa}
use gomaasapi.Errors.{other_error}
use gomaasapi.Resources.Networks.{Vlan, Subnet, vlan_2_0, subnet_2_0}

-- space
pub record Space : Type 0 where
  pub resource_uri : Text
  pub id : ℤ
  pub name : Text
  pub subnets : List Subnet

-- fabric
pub record Fabric : Type 0 where
  pub resource_uri : Text
  pub id : ℤ
  pub name : Text
  pub class_type : Text
  pub vlans : List Vlan

-- staticRoute
pub record StaticRoute : Type 0 where
  pub resource_uri : Text
  pub id : ℤ
  pub source : Subnet
  pub destination : Subnet
  pub gateway_ip : Text
  pub metric : ℤ

module _ (P : Platform) (J : Juju P) where
  unfoldable pub space_fields : FieldList P.Float
  space_fields = need (codes "resource_uri") string (
      need (codes "id") force_int
        (need (codes "name") string (need (codes "subnets") (list (string_map any)) no_fields)))

  -- space_2_0
  unfoldable pub space_2_0 : Members P.Float → Read P Space
  unfolding space_fields
  space_2_0 source = do
    coerced ←
        checked P J plain (codes "space 2.0 schema check failed") (field_map space_fields)
          (obj source)
    valid ← assert_map P coerced
    sources ← assert_list P (at (codes "subnets") valid)
    subnets ←
        rewrap P.errors.trace (read_items P J plain (codes "subnet") (subnet_2_0 P J) 0 sources)
    resource_uri ← assert_string P (at (codes "resource_uri") valid)
    id ← assert_int P (at (codes "id") valid)
    name ← assert_string P (at (codes "name") valid)
    ok (record { resource_uri = resource_uri; id = id; name = name; subnets = subnets })

  -- readSpaces
  unfoldable pub read_spaces : Version → Value P.Float → Read P (List Space)
  read_spaces = read_all P J plain (codes "space") (only_two_dot_oh P space_2_0)

  unfoldable pub fabric_fields : FieldList P.Float
  fabric_fields = need (codes "resource_uri") string (
      need (codes "id") force_int (
        need (codes "name") string (
          need (codes "class_type") (nil_or string)
            (need (codes "vlans") (list (string_map any)) no_fields))))

  -- fabric_2_0
  unfoldable pub fabric_2_0 : Members P.Float → Read P Fabric
  unfolding fabric_fields
  fabric_2_0 source = do
    coerced ←
        checked P J plain (codes "fabric 2.0 schema check failed") (field_map fabric_fields)
          (obj source)
    valid ← assert_map P coerced
    sources ← assert_list P (at (codes "vlans") valid)
    vlans ← rewrap P.errors.trace (read_items P J plain (codes "vlan") (vlan_2_0 P J) 0 sources)
    resource_uri ← assert_string P (at (codes "resource_uri") valid)
    id ← assert_int P (at (codes "id") valid)
    name ← assert_string P (at (codes "name") valid)
    ok (record {
      resource_uri = resource_uri;
      id = id;
      name = name;
      class_type = string_or_empty (at (codes "class_type") valid);
      vlans = vlans;
    })

  -- readFabrics
  unfoldable pub read_fabrics : Version → Value P.Float → Read P (List Fabric)
  read_fabrics = read_all P J plain (codes "fabric") (only_two_dot_oh P fabric_2_0)

  -- The two subnets of a route, which were read as a list.
  unfoldable pub both : List Subnet → Read P (Subnet × Subnet)
  both (s ∷ t ∷ []) = ok (s, t)
  both l = err (
      returned (
        P.errors.new (
          other_error (
            codes "subnets somehow parsed into the wrong number of items (expected 2): "
            ++ itoa (pos (length l))))))

  unfoldable pub static_route_fields : FieldList P.Float
  static_route_fields = need (codes "resource_uri") string (
      need (codes "id") force_int (
        need (codes "source") (string_map any) (
          need (codes "destination") (string_map any)
            (need (codes "gateway_ip") string (need (codes "metric") force_int no_fields)))))

  -- staticRoute_2_0
  unfoldable pub static_route_2_0 : Members P.Float → Read P StaticRoute
  unfolding static_route_fields both
  static_route_2_0 source = do
    coerced ←
        checked P J plain (codes "static-route 2.0 schema check failed")
          (field_map static_route_fields) (obj source)
    valid ← assert_map P coerced
    subnets ← rewrap P.errors.trace (
        read_items P J plain (codes "subnet") (subnet_2_0 P J) 0
          (at (codes "source") valid ∷ at (codes "destination") valid ∷ []))
    ends ← both subnets
    resource_uri ← assert_string P (at (codes "resource_uri") valid)
    id ← assert_int P (at (codes "id") valid)
    gateway_ip ← assert_string P (at (codes "gateway_ip") valid)
    metric ← assert_int P (at (codes "metric") valid)
    ok (record {
      resource_uri = resource_uri;
      id = id;
      source = ends.0;
      destination = ends.1;
      gateway_ip = gateway_ip;
      metric = metric;
    })

  -- readStaticRoutes
  unfoldable pub read_static_routes : Version → Value P.Float → Read P (List StaticRoute)
  read_static_routes =
      read_all P J plain (codes "static-route") (only_two_dot_oh P static_route_2_0)
