-- ===== src/Resources/Places.antt =====
-- zone.go, pool.go, domain.go and bootresource.go. The accessors return fields, so they are the
-- fields of the records.
use gomaasapi.Prelude.{Bool, Option, none, some, List, [], ok, ℤ}
use gomaasapi.Strings.{Text, codes, split}
use gomaasapi.Value.{Value, null, str, obj, Members}
use gomaasapi.Versions.{Version}
use gomaasapi.Http.{Platform}
use gomaasapi.Schema.{
  any, string, boolean, force_int, list, string_map, field_map, nil_or, FieldList, no_fields, need,
  or_default, Juju,
}
use gomaasapi.Reading.{
  ◌>>=◌, plain, typed, at, Read, assert_string, assert_int, assert_bool, assert_map, assert_list,
  only_two_dot_oh, checked, read_items, read_all,
}

-- zone
pub record Zone : Type 0 where
  pub resource_uri : Text
  pub name : Text
  pub description : Text

-- pool
pub record Pool : Type 0 where
  pub resource_uri : Text
  pub name : Text
  pub description : Text

-- domain
pub record Domain : Type 0 where
  pub authoritative : Bool
  pub resource_record_count : ℤ
  pub ttl : Option ℤ
  pub resource_uri : Text
  pub id : ℤ
  pub name : Text

-- bootResource
pub record BootResource : Type 0 where
  pub resource_uri : Text
  pub id : ℤ
  pub name : Text
  pub type_name : Text
  pub architecture : Text
  pub sub_arches : Text
  pub kernel_flavor : Text

-- SubArchitectures, as the strings that its set is made of
sub_architectures : BootResource → List Text
sub_architectures b = split b.sub_arches b','

module _ (P : Platform) (J : Juju P) where
  unfoldable pub zone_fields : FieldList P.Float
  zone_fields =
      need (codes "name") string
        (need (codes "description") string (need (codes "resource_uri") string no_fields))

  -- zone_2_0
  unfoldable pub zone_2_0 : Members P.Float → Read P Zone
  unfolding zone_fields
  zone_2_0 source = do
    coerced ←
        checked P J plain (codes "zone 2.0 schema check failed") (field_map zone_fields)
          (obj source)
    valid ← assert_map P coerced
    name ← assert_string P (at (codes "name") valid)
    description ← assert_string P (at (codes "description") valid)
    resource_uri ← assert_string P (at (codes "resource_uri") valid)
    ok (record { resource_uri = resource_uri; name = name; description = description })

  -- readZones
  unfoldable pub read_zones : Version → Value P.Float → Read P (List Zone)
  read_zones = read_all P J plain (codes "zone") (only_two_dot_oh P zone_2_0)

  unfoldable pub pool_fields : FieldList P.Float
  pool_fields =
      need (codes "name") string
        (need (codes "description") string (need (codes "resource_uri") string no_fields))

  -- pool_2_0
  unfoldable pub pool_2_0 : Members P.Float → Read P Pool
  unfolding pool_fields
  pool_2_0 source = do
    coerced ←
        checked P J plain (codes "pool 2.0 schema check failed") (field_map pool_fields)
          (obj source)
    valid ← assert_map P coerced
    name ← assert_string P (at (codes "name") valid)
    description ← assert_string P (at (codes "description") valid)
    resource_uri ← assert_string P (at (codes "resource_uri") valid)
    ok (record { resource_uri = resource_uri; name = name; description = description })

  -- readPools
  unfoldable pub read_pools : Version → Value P.Float → Read P (List Pool)
  read_pools = read_all P J plain (codes "pool") (only_two_dot_oh P pool_2_0)

  -- The time to live, where it is not nil.
  unfoldable pub ttl_of : Value P.Float → Read P (Option ℤ)
  ttl_of null = ok none
  ttl_of v = do n ← assert_int P v; ok (some n)

  unfoldable pub domain_fields : FieldList P.Float
  domain_fields = need (codes "authoritative") boolean (
      need (codes "resource_record_count") force_int (
        need (codes "ttl") (nil_or force_int) (
          need (codes "resource_uri") string
            (need (codes "id") force_int (need (codes "name") string no_fields)))))

  -- domain_
  unfoldable pub read_domain : Members P.Float → Read P Domain
  unfolding domain_fields ttl_of
  read_domain source = do
    coerced ←
        checked P J plain (codes "domain schema check failed") (field_map domain_fields)
          (obj source)
    valid ← assert_map P coerced
    ttl ← ttl_of (at (codes "ttl") valid)
    authoritative ← assert_bool P (at (codes "authoritative") valid)
    id ← assert_int P (at (codes "id") valid)
    name ← assert_string P (at (codes "name") valid)
    resource_record_count ← assert_int P (at (codes "resource_record_count") valid)
    resource_uri ← assert_string P (at (codes "resource_uri") valid)
    ok (record {
      authoritative = authoritative;
      resource_record_count = resource_record_count;
      ttl = ttl;
      resource_uri = resource_uri;
      id = id;
      name = name;
    })

  -- readDomains, which has no versions
  unfoldable pub read_domains : Value P.Float → Read P (List Domain)
  read_domains source = do
    coerced ←
        checked P J plain (codes "domain base schema check failed") (list (string_map any)) source
    valid ← assert_list P coerced
    read_items P J plain (codes "domain") read_domain 0 valid

  unfoldable pub boot_resource_fields : FieldList P.Float
  boot_resource_fields = need (codes "resource_uri") string (
      need (codes "id") force_int (
        need (codes "name") string (
          need (codes "type") string (
            need (codes "architecture") string (
              or_default (codes "subarches") (str []) string
                (or_default (codes "kflavor") (str []) string no_fields))))))

  -- bootResource_2_0
  unfoldable pub boot_resource_2_0 : Members P.Float → Read P BootResource
  unfolding boot_resource_fields
  boot_resource_2_0 source = do
    coerced ←
        checked P J typed (codes "boot resource 2.0 schema check failed")
          (field_map boot_resource_fields) (obj source)
    valid ← assert_map P coerced
    resource_uri ← assert_string P (at (codes "resource_uri") valid)
    id ← assert_int P (at (codes "id") valid)
    name ← assert_string P (at (codes "name") valid)
    type_name ← assert_string P (at (codes "type") valid)
    architecture ← assert_string P (at (codes "architecture") valid)
    sub_arches ← assert_string P (at (codes "subarches") valid)
    kernel_flavor ← assert_string P (at (codes "kflavor") valid)
    ok (record {
      resource_uri = resource_uri;
      id = id;
      name = name;
      type_name = type_name;
      architecture = architecture;
      sub_arches = sub_arches;
      kernel_flavor = kernel_flavor;
    })

  -- readBootResources
  unfoldable pub read_boot_resources : Version → Value P.Float → Read P (List BootResource)
  read_boot_resources =
      read_all P J typed (codes "boot resource") (only_two_dot_oh P boot_resource_2_0)
