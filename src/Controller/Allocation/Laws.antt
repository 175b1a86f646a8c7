-- ===== src/Controller/Allocation/Laws.antt =====
-- What an allocation says was matched: interfaces and storage of the machine, and no panic.
use gomaasapi.Prelude.{
  ◌≡◌, refl, ◌⊎◌, inl, inr, Option, none, some, List, [], ◌∷◌, ◌++◌, ℤ, ok, err, Option-cases,
  if_elim, drop, length, list_eq, nat_eq, All,
}
use gomaasapi.Strings.{Text, codes, has_prefix}
use gomaasapi.Strings.Decimal.{itoa}
use gomaasapi.Value.{Value, str, num, members_of, items_of}
use gomaasapi.Http.{Platform}
use gomaasapi.Schema.{Checker, Juju, any, force_int, list, string_map, field_map, Shaped}
use gomaasapi.Reading.{returned, ◌>>=◌}
use gomaasapi.Reading.Sound.{NoPanic, NoPanic-bind, NoPanic-int, no_panic, Safe-returned, at-Shaped}
use gomaasapi.Reading.Sound.Lists.{fields_step}
use gomaasapi.Resources.Nics.{Interface}
use gomaasapi.Resources.Hosts.{Machine}
use gomaasapi.Machines.{machine_interface, block_device, machine_partition}
use gomaasapi.Controller.Allocation.{
  Conversions, assert_ints, int_entries, part_prefix, no_match_for, convert_constraint_matches_int,
  any_entries, convert_constraint_matches_any, matched_interface, matched_interfaces,
  matched_block_device, matched_partition_id, matched_partition, matched_storage, matched_storages,
  interfaces_by_label, storage_by_label, interface_matches, storage_matches, match_fields,
  constraint_fields, parse_allocate_constraints_response,
}

module _ (P : Platform) (J : Juju P) (G : Conversions P.Float) where
  -- The interfaces are the machine's with these identifiers, one for each, in order.
  abbrev pub AllMatched : Machine → List ℤ → List Interface → Type 0
  AllMatched m [] [] = Unit
  AllMatched m (id ∷ ids) (i ∷ interfaces) =
      (machine_interface id m ≡ some i) × AllMatched m ids interfaces
  AllMatched m ids interfaces = ⊥

  matched_interface_cases :
      (m : Machine) (label : Text) (id : ℤ)
      → ((i : Interface) × (machine_interface id m ≡ some i)
          × (matched_interface P J G m label id ≡ ok i))
        ⊎ ((machine_interface id m ≡ none)
            × ((e : P.Err) × (matched_interface P J G m label id ≡ err (returned e))))
  unfolding matched_interface
  matched_interface_cases m label id = elim (Option-cases (machine_interface id m)) [
    | inl e ↦ inr (
      e,
      (
        no_match_for P J G (codes "interface") label
            (itoa id ++ codes " does not match an interface for the machine"),
        rw (e, matched_interface) refl,
      ),
    )
    | inr (i, e) ↦ inl (i, e, rw (e, matched_interface) refl)
  ]

  -- The identifiers of a label are matched with the machine's interfaces, one for each, in order; if
  -- the machine has no interface with one of them, an error is returned and nothing is matched.
  pub matched_interfaces_lem :
      (m : Machine) (label : Text) (ids : List ℤ)
      → ((interfaces : List Interface) × (matched_interfaces P J G m label ids ≡ ok interfaces)
          × AllMatched m ids interfaces)
        ⊎ ((e : P.Err) × (id : ℤ) × (machine_interface id m ≡ none)
            × (matched_interfaces P J G m label ids ≡ err (returned e)))
  unfolding matched_interfaces
  matched_interfaces_lem m label [] = inl ([], refl, tt)
  matched_interfaces_lem m label (id ∷ ids) = elim (matched_interface_cases m label id) [
    | inr (h, (e, k)) ↦ inr (e, id, h, rw k refl)
    | inl (i, h, k) ↦ elim (matched_interfaces_lem m label ids) [
      | inl (interfaces, r, all) ↦ inl (i ∷ interfaces, rw (k, ◌>>=◌) (rw r refl), (h, all))
      | inr (e, missing, n, r) ↦ inr (e, missing, n, rw (k, ◌>>=◌) (rw r refl))
    ]
  ]

  assert_ints-NoPanic :
      (vs : List (Value P.Float)) → All (Shaped force_int) vs → NoPanic P (assert_ints P J G vs)
  unfolding assert_ints
  assert_ints-NoPanic [] h = no_panic P _
  assert_ints-NoPanic (v ∷ vs) (s, h) =
      NoPanic-bind P _ _ (NoPanic-int P v s)
        (λ n. NoPanic-bind P _ _ (assert_ints-NoPanic vs h) (λ rest. no_panic P _))

  int_entries-NoPanic :
      (m : List (Text × Value P.Float))
      → All (λ (k, v). Shaped (list force_int) v) m
      → NoPanic P (int_entries P J G m)
  unfolding int_entries
  int_entries-NoPanic [] h = no_panic P _
  int_entries-NoPanic ((k, v) ∷ m) ((l, e, s), h) = rw e (
      NoPanic-bind P _ _ (assert_ints-NoPanic (items_of l) s)
        (λ ids. NoPanic-bind P _ _ (int_entries-NoPanic m h) (λ rest. no_panic P _)))

  any_entries-NoPanic :
      (m : List (Text × Value P.Float))
      → All (λ (k, v). Shaped (list any) v) m
      → NoPanic P (any_entries P J G m)
  unfolding any_entries
  any_entries-NoPanic [] h = no_panic P _
  any_entries-NoPanic ((k, v) ∷ m) ((l, e, s), h) =
      rw e (NoPanic-bind P _ _ (any_entries-NoPanic m h) (λ rest. no_panic P _))

  matched_interface-NoPanic :
      (m : Machine) (label : Text) (id : ℤ) → NoPanic P (matched_interface P J G m label id)
  matched_interface-NoPanic m label id = elim (matched_interface_cases m label id) [
    | inl (i, h, k) ↦ rw k (no_panic P _)
    | inr (h, (e, k)) ↦ rw k (Safe-returned P _ e)
  ]

  matched_interfaces-NoPanic :
      (m : Machine) (label : Text) (ids : List ℤ) → NoPanic P (matched_interfaces P J G m label ids)
  matched_interfaces-NoPanic m label ids = elim (matched_interfaces_lem m label ids) [
    | inl (interfaces, h, all) ↦ rw h (no_panic P _)
    | inr (e, id, n, h) ↦ rw h (Safe-returned P _ e)
  ]

  interfaces_by_label-NoPanic :
      (m : Machine) (matches : List (Text × List ℤ))
      → NoPanic P (interfaces_by_label P J G m matches)
  unfolding interfaces_by_label
  interfaces_by_label-NoPanic m [] = no_panic P _
  interfaces_by_label-NoPanic m ((label, ids) ∷ matches) =
      NoPanic-bind P _ _ (matched_interfaces-NoPanic m label ids)
        (λ i. NoPanic-bind P _ _ (interfaces_by_label-NoPanic m matches) (λ rest. no_panic P _))

  matched_block_device-NoPanic :
      (m : Machine) (label : Text) (id : ℤ) → NoPanic P (matched_block_device P J G m label id)
  unfolding matched_block_device
  matched_block_device-NoPanic m label id = elim (Option-cases (block_device id m)) [
    | inl e ↦ rw (e, matched_block_device) (Safe-returned P _ _)
    | inr (b, e) ↦ rw (e, matched_block_device) (no_panic P _)
  ]

  matched_partition_id-NoPanic :
      (m : Machine) (label : Text) (id : ℤ) → NoPanic P (matched_partition_id P J G m label id)
  unfolding matched_partition_id
  matched_partition_id-NoPanic m label id = elim (Option-cases (machine_partition id m)) [
    | inl e ↦ rw (e, matched_partition_id) (Safe-returned P _ _)
    | inr (b, e) ↦ rw (e, matched_partition_id) (no_panic P _)
  ]

  matched_partition-NoPanic :
      (m : Machine) (label id : Text) → NoPanic P (matched_partition P J G m label id)
  unfolding matched_partition
  matched_partition-NoPanic m label id =
      if_elim (NoPanic P) (has_prefix id part_prefix) _ _
        (λ prefixed. elim (Option-cases (G.atoi (drop (length part_prefix) id))) [
          | inl e ↦ rw (e, matched_partition) (Safe-returned P _ _)
          | inr (n, e) ↦ rw (e, matched_partition) (matched_partition_id-NoPanic m label n)
        ])
        (λ other. Safe-returned P _ _)

  matched_storage-NoPanic :
      (m : Machine) (label : Text) (v : Value P.Float) → NoPanic P (matched_storage P J G m label v)
  unfolding matched_storage
  matched_storage-NoPanic m label (num x) = matched_block_device-NoPanic m label (G.truncate x)
  matched_storage-NoPanic m label (str id) = matched_partition-NoPanic m label id
  matched_storage-NoPanic m label v = Safe-returned P _ _

  matched_storages-NoPanic :
      (m : Machine) (label : Text) (vs : List (Value P.Float))
      → NoPanic P (matched_storages P J G m label vs)
  unfolding matched_storages
  matched_storages-NoPanic m label [] = no_panic P _
  matched_storages-NoPanic m label (v ∷ vs) =
      NoPanic-bind P _ _ (matched_storage-NoPanic m label v)
        (λ d. NoPanic-bind P _ _ (matched_storages-NoPanic m label vs) (λ rest. no_panic P _))

  storage_by_label-NoPanic :
      (m : Machine) (matches : List (Text × List (Value P.Float)))
      → NoPanic P (storage_by_label P J G m matches)
  unfolding storage_by_label
  storage_by_label-NoPanic m [] = no_panic P _
  storage_by_label-NoPanic m ((label, ids) ∷ matches) =
      NoPanic-bind P _ _ (matched_storages-NoPanic m label ids)
        (λ d. NoPanic-bind P _ _ (storage_by_label-NoPanic m matches) (λ rest. no_panic P _))

  -- The value of a field that may be left out: missing, or of the shape that the check gives.
  abbrev Given : Checker P.Float → Option (Value P.Float) → Type 0
  Given c o = (o ≡ none) ⊎ ((v : Value P.Float) × (o ≡ some v) × Shaped c v)

  interface_matches-NoPanic :
      (m : Machine) (o : Option (Value P.Float))
      → Given (string_map (list force_int)) o
      → NoPanic P (interface_matches P J G m o)
  unfolding interface_matches convert_constraint_matches_int
  interface_matches-NoPanic m o (inl e) = rw (e, interface_matches) (no_panic P _)
  interface_matches-NoPanic m o (inr (v, e, (entries, e', s))) =
      rw (e, interface_matches)
        (rw e' (
          NoPanic-bind P _ _ (int_entries-NoPanic (members_of entries) s)
            (λ matches. interfaces_by_label-NoPanic m (G.range matches))))

  storage_matches-NoPanic :
      (m : Machine) (o : Option (Value P.Float))
      → Given (string_map (list any)) o
      → NoPanic P (storage_matches P J G m o)
  unfolding storage_matches convert_constraint_matches_any
  storage_matches-NoPanic m o (inl e) = rw (e, storage_matches) (no_panic P _)
  storage_matches-NoPanic m o (inr (v, e, (entries, e', s))) =
      rw (e, storage_matches)
        (rw e' (
          NoPanic-bind P _ _ (any_entries-NoPanic (members_of entries) s)
            (λ matches. storage_by_label-NoPanic m (G.range matches))))

  -- The constraints that an answer says were matched are read without a panic, whatever the answer and
  -- the machine: the unchecked type assertions are all on values that have passed the check.
  pub parse_allocate_constraints_response-NoPanic :
      (source : Value P.Float) (m : Machine)
      → NoPanic P (parse_allocate_constraints_response P J G source m)
  unfolding parse_allocate_constraints_response constraint_fields match_fields codes list_eq nat_eq
  parse_allocate_constraints_response-NoPanic source m = fields_step P J _ _ _ _ _ (λ valid h.
      let (constraints, e, (storage, interfaces)) =
        at-Shaped (codes "constraints_by_type") (field_map (match_fields P J G))
          (constraint_fields P J G) valid refl h.shape in
      rw e (
        NoPanic-bind P _ _ (interface_matches-NoPanic m _ interfaces.0)
          (λ i. NoPanic-bind P _ _ (storage_matches-NoPanic m _ storage) (λ d. no_panic P _))))
