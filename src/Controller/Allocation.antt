-- ===== src/Controller/Allocation.antt =====
-- `AllocateMachine` of controller.go, and the constraints that its answer says were matched.
pub mod Request
pub mod Laws
use gomaasapi.Prelude.{
  ℕ, Bool, true, false, Option, none, some, List, [], ◌∷◌, ◌++◌, if◌then◌else◌, ◌==◌, nat_eq,
  list_eq, ℤ, pos, drop, length, Result, ok, err, Action,
}
use gomaasapi.Strings.{Text, codes, has_prefix}
use gomaasapi.Strings.Decimal.{itoa}
use gomaasapi.Params.{
  Values, new_url_params, maybe_add, maybe_add_int, maybe_add_bool, maybe_add_many,
}
use gomaasapi.Errors.{new_deserialization_error}
use gomaasapi.Value.{Value, null, str, num, int, uint, bool, obj, arr, Members, field, members_of}
use gomaasapi.Http.{Platform}
use gomaasapi.Schema.{
  any, force_int, list, string_map, field_map, FieldList, no_fields, need, or_omit, Juju,
}
use gomaasapi.Reading.{
  Fault, returned, panicked, ◌>>=◌, rewrap, typed, at, Read, assert_int, assert_map, assert_list,
  checked,
}
use gomaasapi.Allocate.{AllocateMachineArgs, storage_text, interfaces_text, not_subnets}
use gomaasapi.Resources.Nics.{Interface}
use gomaasapi.Resources.Storage.{Partition, BlockDevice}
use gomaasapi.Resources.Hosts.{Machine}
use gomaasapi.Machines.{machine_interface, block_device, machine_partition}

unfoldable pub allocate_params : AllocateMachineArgs → Values
allocate_params a = maybe_add_bool (codes "dry_run") a.dry_run (
    maybe_add (codes "comment") a.comment (
      maybe_add (codes "agent_name") a.agent_name (
        maybe_add_many (codes "not_in_pool") a.not_in_pool (
          maybe_add_many (codes "not_in_zone") a.not_in_zone (
            maybe_add (codes "pool") a.pool (
              maybe_add (codes "zone") a.zone (
                maybe_add_many (codes "not_subnets") (not_subnets a) (
                  maybe_add (codes "interfaces") (interfaces_text a) (
                    maybe_add (codes "storage") (storage_text a) (
                      maybe_add_many (codes "not_tags") a.not_tags (
                        maybe_add_many (codes "tags") a.tags (
                          maybe_add_int (codes "mem") a.min_memory (
                            maybe_add_int (codes "cpu_count") a.min_cpu_count (
                              maybe_add (codes "arch") a.architecture (
                                maybe_add (codes "system_id") a.system_id (
                                  maybe_add (codes "name") a.hostname new_url_params))))))))))))))))

-- StorageDevice: a block device or a partition
pub data StorageDevice : Type 0 where
  whole : BlockDevice → StorageDevice
  part : Partition → StorageDevice

-- ConstraintMatches
pub record ConstraintMatches : Type 0 where
  pub interfaces : List (Text × List Interface)
  pub storage : List (Text × List StorageDevice)

abbrev pub part_prefix : Text
part_prefix = codes "partition:"

-- What `parseAllocateConstraintsResponse` uses of Go: the order in which `range` goes through a map,
-- the integer part of a float64, strconv.Atoi, and the format `%v` of a value.
pub record Conversions (F : Type 0) : Type 1 where
  pub range : {A : Type 0} → List (Text × A) → List (Text × A)
  pub truncate : F → ℤ
  pub atoi : Text → Option ℤ
  pub value_text : Value F → Text

module _ (P : Platform) (J : Juju P) (G : Conversions P.Float) where
  open P use {Err, Float}

  unfoldable pub match_fields : FieldList Float
  match_fields =
      or_omit (codes "storage") (string_map (list any))
        (or_omit (codes "interfaces") (string_map (list force_int)) no_fields)

  unfoldable pub constraint_fields : FieldList Float
  unfolding match_fields
  constraint_fields = need (codes "constraints_by_type") (field_map match_fields) no_fields

  -- convertConstraintMatchesInt
  unfoldable pub assert_ints : List (Value Float) → Read P (List ℤ)
  assert_ints [] = ok []
  assert_ints (v ∷ vs) = do n ← assert_int P v; rest ← assert_ints vs; ok (n ∷ rest)

  int_entries : List (Text × Value Float) → Read P (List (Text × List ℤ))
  unfolding assert_ints
  int_entries [] = ok []
  int_entries ((label, values) ∷ m) = do
    items ← assert_list P values
    ids ← assert_ints items
    rest ← int_entries m
    ok ((label, ids) ∷ rest)

  unfoldable pub convert_constraint_matches_int : Value Float → Read P (List (Text × List ℤ))
  unfolding int_entries
  convert_constraint_matches_int source = do m ← assert_map P source; int_entries (members_of m)

  -- convertConstraintMatchesAny
  any_entries : List (Text × Value Float) → Read P (List (Text × List (Value Float)))
  any_entries [] = ok []
  any_entries ((label, values) ∷ m) = do
    items ← assert_list P values
    rest ← any_entries m
    ok ((label, items) ∷ rest)

  unfoldable pub convert_constraint_matches_any :
      Value Float → Read P (List (Text × List (Value Float)))
  unfolding any_entries
  convert_constraint_matches_any source = do m ← assert_map P source; any_entries (members_of m)

  no_match_for : Text → Text → Text → Err
  no_match_for kind label rest =
      new_deserialization_error P.errors
        (codes "constraint match " ++ kind ++ codes " " ++ P.quote label ++ codes ": " ++ rest)

  -- The interface of the machine with this identifier
  matched_interface : Machine → Text → ℤ → Read P Interface
  unfolding no_match_for
  matched_interface m label id = elim (machine_interface id m) [
    | some i ↦ ok i
    | none ↦ err (
        returned (
          no_match_for (codes "interface") label
            (itoa id ++ codes " does not match an interface for the machine")))
  ]

  unfoldable pub matched_interfaces : Machine → Text → List ℤ → Read P (List Interface)
  unfolding matched_interface
  matched_interfaces m label [] = ok []
  matched_interfaces m label (id ∷ ids) = do
    i ← matched_interface m label id
    rest ← matched_interfaces m label ids
    ok (i ∷ rest)

  matched_block_device : Machine → Text → ℤ → Read P StorageDevice
  unfolding no_match_for
  matched_block_device m label id = elim (block_device id m) [
    | some b ↦ ok (whole b)
    | none ↦ err (
        returned (
          no_match_for (codes "storage") label
            (itoa id ++ codes " does not match a block device for the machine")))
  ]

  matched_partition_id : Machine → Text → ℤ → Read P StorageDevice
  unfolding no_match_for
  matched_partition_id m label id = elim (machine_partition id m) [
    | some p ↦ ok (part p)
    | none ↦ err (
        returned (
          no_match_for (codes "storage") label
            (itoa id ++ codes " does not match a partition for the machine")))
  ]

  matched_partition : Machine → Text → Text → Read P StorageDevice
  unfolding matched_partition_id no_match_for
  matched_partition m label id =
      if has_prefix id part_prefix
      then (elim (G.atoi (drop (length part_prefix) id)) [
        | some n ↦ matched_partition_id m label n
        | none ↦ err (
            returned (
              no_match_for (codes "storage") label
                (drop (length part_prefix) id ++ codes " cannot convert to int.")))
      ])
      else err (
          returned
            (no_match_for (codes "storage") label (id ++ codes " is not prefixed with partition")))

  -- A number is the identifier of a block device, a text that of a partition.
  unfoldable pub matched_storage : Machine → Text → Value Float → Read P StorageDevice
  unfolding matched_block_device matched_partition no_match_for
  matched_storage m label (num x) = matched_block_device m label (G.truncate x)
  matched_storage m label (str id) = matched_partition m label id
  matched_storage m label v = err (
      returned
        (no_match_for (codes "storage") label (G.value_text v ++ codes " is not an int or string")))

  unfoldable pub matched_storages :
      Machine → Text → List (Value Float) → Read P (List StorageDevice)
  unfolding matched_storage
  matched_storages m label [] = ok []
  matched_storages m label (v ∷ vs) = do
    d ← matched_storage m label v
    rest ← matched_storages m label vs
    ok (d ∷ rest)

  -- The loops over the labels
  interfaces_by_label : Machine → List (Text × List ℤ) → Read P (List (Text × List Interface))
  unfolding matched_interfaces
  interfaces_by_label m [] = ok []
  interfaces_by_label m ((label, ids) ∷ matches) = do
    interfaces ← matched_interfaces m label ids
    rest ← interfaces_by_label m matches
    ok ((label, interfaces) ∷ rest)

  storage_by_label :
      Machine → List (Text × List (Value Float)) → Read P (List (Text × List StorageDevice))
  unfolding matched_storages
  storage_by_label m [] = ok []
  storage_by_label m ((label, ids) ∷ matches) = do
    devices ← matched_storages m label ids
    rest ← storage_by_label m matches
    ok ((label, devices) ∷ rest)

  interface_matches : Machine → Option (Value Float) → Read P (List (Text × List Interface))
  unfolding interfaces_by_label
  interface_matches m none = ok []
  interface_matches m (some v) = do
    matches ← convert_constraint_matches_int v
    interfaces_by_label m (G.range matches)

  storage_matches : Machine → Option (Value Float) → Read P (List (Text × List StorageDevice))
  unfolding storage_by_label
  storage_matches m none = ok []
  storage_matches m (some v) = do
    matches ← convert_constraint_matches_any v
    storage_by_label m (G.range matches)

  -- parseAllocateConstraintsResponse
  unfoldable pub parse_allocate_constraints_response :
      Value Float → Machine → Read P ConstraintMatches
  unfolding constraint_fields interface_matches storage_matches
  parse_allocate_constraints_response source m = do
    coerced ←
        checked P J typed (codes "allocation constraints response schema check failed")
          (field_map constraint_fields) source
    valid ← assert_map P coerced
    constraints ← assert_map P (at (codes "constraints_by_type") valid)
    interfaces ← interface_matches m (field (codes "interfaces") constraints)
    storage ← storage_matches m (field (codes "storage") constraints)
    ok (record { interfaces = interfaces; storage = storage })
