-- ===== src/Resources/Storage.antt =====
-- filesystem.go, partition.go and blockdevice.go. The accessors return fields, so they are the fields
-- of the records; a nil pointer is `none`, and a `uint64` is below 2 ^ 64.
use gomaasapi.Prelude.{ℕ, Option, none, some, List, [], ok, ℤ}
use gomaasapi.Strings.{Text, codes}
use gomaasapi.Value.{Value, str, obj, Members, arr, nil}
use gomaasapi.Versions.{Version}
use gomaasapi.Http.{Platform}
use gomaasapi.Schema.{
  any, string, force_int, force_uint, list, string_map, field_map, nil_or, FieldList, no_fields,
  need, or_default, Juju,
}
use gomaasapi.Reading.{
  ◌>>=◌, rewrap, typed, string_or_empty, map_of, at, Read, assert_string, assert_int, assert_uint,
  assert_map, assert_list, convert_to_string_slice, only_two_dot_oh, checked, read_items, read_all,
}

-- filesystem
pub record FileSystem : Type 0 where
  pub fs_type : Text
  pub mount_point : Text
  pub label : Text
  pub uuid : Text

-- partition; a `uint64` is below 2 ^ 64.
pub record Partition : Type 0 where
  pub resource_uri : Text
  pub id : ℤ
  pub path : Text
  pub uuid : Text
  pub used_for : Text
  pub size : ℕ
  pub tags : List Text
  pub filesystem : Option FileSystem

-- blockdevice
pub record BlockDevice : Type 0 where
  pub resource_uri : Text
  pub id : ℤ
  pub uuid : Text
  pub name : Text
  pub model : Text
  pub id_path : Text
  pub path : Text
  pub used_for : Text
  pub tags : List Text
  pub block_size : ℕ
  pub used_size : ℕ
  pub size : ℕ
  pub filesystem : Option FileSystem
  pub partitions : List Partition

module _ (P : Platform) (J : Juju P) where
  unfoldable pub filesystem_fields : FieldList P.Float
  filesystem_fields = need (codes "fstype") string (
      or_default (codes "mount_point") (str []) (nil_or string) (
        or_default (codes "label") (str []) (nil_or string) (need (codes "uuid") string no_fields)))

  -- filesystem2_0
  unfoldable pub filesystem_2_0 : Members P.Float → Read P FileSystem
  unfolding filesystem_fields
  filesystem_2_0 source = do
    coerced ←
        checked P J typed (codes "filesystem 2.0 schema check failed") (field_map filesystem_fields)
          (obj source)
    valid ← assert_map P coerced
    fs_type ← assert_string P (at (codes "fstype") valid)
    uuid ← assert_string P (at (codes "uuid") valid)
    ok (record {
      fs_type = fs_type;
      mount_point = string_or_empty (at (codes "mount_point") valid);
      label = string_or_empty (at (codes "label") valid);
      uuid = uuid;
    })

  -- The file system of a device or partition, where it is an attribute map.
  unfoldable pub filesystem_of : Option (Members P.Float) → Read P (Option FileSystem)
  filesystem_of none = ok none
  filesystem_of (some source) = do f ← rewrap P.errors.trace (filesystem_2_0 source); ok (some f)

  unfoldable pub partition_fields : FieldList P.Float
  partition_fields = need (codes "resource_uri") string (
      need (codes "id") force_int (
        need (codes "path") string (
          need (codes "uuid") (nil_or string) (
            need (codes "used_for") string (
              need (codes "size") force_uint (
                or_default (codes "tags") (arr nil) (list string)
                  (need (codes "filesystem") (nil_or (string_map any)) no_fields)))))))

  -- partition_2_0
  unfoldable pub partition_2_0 : Members P.Float → Read P Partition
  unfolding partition_fields filesystem_of
  partition_2_0 source = do
    coerced ←
        checked P J typed (codes "partition 2.0 schema check failed") (field_map partition_fields)
          (obj source)
    valid ← assert_map P coerced
    filesystem ← filesystem_of (map_of (at (codes "filesystem") valid))
    resource_uri ← assert_string P (at (codes "resource_uri") valid)
    id ← assert_int P (at (codes "id") valid)
    path ← assert_string P (at (codes "path") valid)
    used_for ← assert_string P (at (codes "used_for") valid)
    size ← assert_uint P (at (codes "size") valid)
    tags ← convert_to_string_slice P (at (codes "tags") valid)
    ok (record {
      resource_uri = resource_uri;
      id = id;
      path = path;
      uuid = string_or_empty (at (codes "uuid") valid);
      used_for = used_for;
      size = size;
      tags = tags;
      filesystem = filesystem;
    })

  -- readPartitions
  unfoldable pub read_partitions : Version → Value P.Float → Read P (List Partition)
  read_partitions = read_all P J typed (codes "partition") (only_two_dot_oh P partition_2_0)

  unfoldable pub blockdevice_fields : FieldList P.Float
  blockdevice_fields = need (codes "resource_uri") string (
      need (codes "id") force_int (
        need (codes "uuid") (nil_or string) (
          need (codes "name") string (
            need (codes "model") (nil_or string) (
              need (codes "id_path") (nil_or string) (
                need (codes "path") string (
                  need (codes "used_for") string (
                    need (codes "tags") (list string) (
                      need (codes "block_size") force_uint (
                        need (codes "used_size") force_uint (
                          need (codes "size") force_uint (
                            need (codes "filesystem") (nil_or (string_map any)) (
                              need (codes "partitions") (list (string_map any))
                                no_fields)))))))))))))

  -- blockdevice_2_0
  unfoldable pub blockdevice_2_0 : Members P.Float → Read P BlockDevice
  unfolding blockdevice_fields filesystem_of
  blockdevice_2_0 source = do
    coerced ←
        checked P J typed (codes "blockdevice 2.0 schema check failed")
          (field_map blockdevice_fields) (obj source)
    valid ← assert_map P coerced
    filesystem ← filesystem_of (map_of (at (codes "filesystem") valid))
    sources ← assert_list P (at (codes "partitions") valid)
    partitions ←
        rewrap P.errors.trace (read_items P J typed (codes "partition") partition_2_0 0 sources)
    resource_uri ← assert_string P (at (codes "resource_uri") valid)
    id ← assert_int P (at (codes "id") valid)
    name ← assert_string P (at (codes "name") valid)
    path ← assert_string P (at (codes "path") valid)
    used_for ← assert_string P (at (codes "used_for") valid)
    tags ← convert_to_string_slice P (at (codes "tags") valid)
    block_size ← assert_uint P (at (codes "block_size") valid)
    used_size ← assert_uint P (at (codes "used_size") valid)
    size ← assert_uint P (at (codes "size") valid)
    ok (record {
      resource_uri = resource_uri;
      id = id;
      uuid = string_or_empty (at (codes "uuid") valid);
      name = name;
      model = string_or_empty (at (codes "model") valid);
      id_path = string_or_empty (at (codes "id_path") valid);
      path = path;
      used_for = used_for;
      tags = tags;
      block_size = block_size;
      used_size = used_size;
      size = size;
      filesystem = filesystem;
      partitions = partitions;
    })

  -- readBlockDevices
  unfoldable pub read_block_devices : Version → Value P.Float → Read P (List BlockDevice)
  read_block_devices = read_all P J typed (codes "blockdevice") (only_two_dot_oh P blockdevice_2_0)
