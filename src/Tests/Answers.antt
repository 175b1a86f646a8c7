-- ===== src/Tests/Answers.antt =====
-- The reading of answers, at concrete values.
use mathlib.Core.List.Permᴰ
use gomaasapi.Prelude.{
  ◌≡◌, refl, sym, ◌⊎◌, inl, inr, ℕ, ◌+◌, true, List, [], ◌∷◌, ◌++◌, list_eq, nat_eq, pos, ok, err,
  All, length,
}
use gomaasapi.Strings.{codes}
use gomaasapi.Errors.{ErrorValue}
use gomaasapi.Value.{Value, null, str, int, obj, arr, Members, end, member, nil, cons, field}
use gomaasapi.Versions.{Version, zero_version, two_dot_oh, version_leb}
use gomaasapi.Schema.{any, string_map, field_map, nil_or, Shaped}
use gomaasapi.Reading.{
  Fault, returned, panicked, plain, at, Read, Funcs, find_func, deserialisation_version,
  no_read_func, select, read_items, checked,
}
use gomaasapi.Reading.Choice.{select_lem, deserialisation_version-Perm}
use gomaasapi.Reading.Items.{AllRead, ItemFault, read_items_lem}
use gomaasapi.Reading.Sound.{NoPanic}
use gomaasapi.Resources.Fabrics.{read_fabrics, read_spaces, read_static_routes}
use gomaasapi.Resources.Nics.{read_interface}
use gomaasapi.Resources.Places.{
  Zone, zone_2_0, read_zones, read_pools, read_boot_resources, zone_fields,
}
use gomaasapi.Resources.Storage.{read_block_devices}
use gomaasapi.Resources.Hosts.{machine_fields, machine_2_0, pool_of, read_device, read_devices}
use gomaasapi.Resources.Sound.Hosts.{readers-NoPanic, machine_2_0-NoPanic}
use gomaasapi.Tests.Bench.{bench, place}
use gomaasapi.Tests.Juju.{juju, strict, strict_same}

abbrev later : Version
later = record { major = 2; minor = 5 }

abbrev funcs : Funcs bench Zone
funcs = (two_dot_oh, zone_2_0 bench juju) ∷ (later, zone_2_0 bench juju) ∷ []

abbrev others : Funcs bench Zone
others = (later, zone_2_0 bench juju) ∷ (two_dot_oh, zone_2_0 bench juju) ∷ []

select_lem_example :
    ((select bench juju plain (codes "zone") later funcs
        ≡ err (returned (no_read_func bench juju plain (codes "zone") later)))
      × All (λ (v, f). version_leb v later ≡ true → v ≡ zero_version) funcs)
    ⊎ ((v : Version) × (f : Members ℕ → Read bench Zone) × (select bench juju plain
            (codes "zone")
            later
            funcs
          ≡ ok f)
        × (find_func bench v funcs ≡ ok f)
        × (version_leb v later ≡ true)
        × All (λ (w, g). version_leb w later ≡ true → version_leb w v ≡ true) funcs)
select_lem_example = select_lem bench juju plain (codes "zone") later funcs

deserialisation_version-Perm_example :
    deserialisation_version bench juju later zero_version funcs
    ≡ deserialisation_version bench juju later zero_version others
deserialisation_version-Perm_example =
    deserialisation_version-Perm bench juju later funcs others ∣ Permᴰ.swap refl refl ∣₁

abbrev places : List (Value ℕ)
places = obj place ∷ str (codes "default") ∷ []

read_items_lem_example :
    ((objects : List Zone) × (read_items bench juju plain
          (codes "zone")
          (zone_2_0 bench juju)
          0
          places
        ≡ ok objects)
      × AllRead bench juju plain (codes "zone") (zone_2_0 bench juju) places objects)
    ⊎ ((before after : List (Value ℕ)) × (v : Value ℕ) × (objects : List Zone) × (e : Fault
          ErrorValue)
        × (places ≡ before ++ v ∷ after)
        × AllRead bench juju plain (codes "zone") (zone_2_0 bench juju) before objects
        × (read_items bench juju plain (codes "zone") (zone_2_0 bench juju) 0 places ≡ err e)
        × ItemFault bench juju plain (codes "zone") (zone_2_0 bench juju) (0 + length before) v e)
read_items_lem_example =
    read_items_lem bench juju plain (codes "zone") (zone_2_0 bench juju) 0 places

abbrev answer : Value ℕ
answer = arr (cons (obj place) nil)

readers-NoPanic_example :
    NoPanic bench (read_device bench juju later answer)
    × NoPanic bench (read_devices bench juju later answer)
    × NoPanic bench (read_interface bench juju later answer)
    × NoPanic bench (read_boot_resources bench juju later answer)
    × NoPanic bench (read_fabrics bench juju later answer)
    × NoPanic bench (read_spaces bench juju later answer)
    × NoPanic bench (read_static_routes bench juju later answer)
    × NoPanic bench (read_zones bench juju later answer)
    × NoPanic bench (read_pools bench juju later answer)
    × NoPanic bench (read_block_devices bench juju later answer)
readers-NoPanic_example = readers-NoPanic bench juju later answer

-- A machine as the server answers it, with this pool.
abbrev machine_source : Value ℕ → Members ℕ
machine_source pool = member (codes "resource_uri") (str (codes "/machines/1/")) (
    member (codes "system_id") (str (codes "1")) (
      member (codes "hostname") (str (codes "host")) (
        member (codes "fqdn") (str (codes "host.maas")) (
          member (codes "tag_names") (arr nil) (
            member (codes "owner_data") (obj end) (
              member (codes "osystem") (str []) (
                member (codes "distro_series") (str []) (
                  member (codes "architecture") (str []) (
                    member (codes "memory") (int (pos 1024)) (
                      member (codes "cpu_count") (int (pos 1)) (
                        member (codes "ip_addresses") (arr nil) (
                          member (codes "power_state") (str (codes "on")) (
                            member (codes "status_name") (str []) (
                              member (codes "status_message") null (
                                member (codes "boot_interface") null (
                                  member (codes "interface_set") (arr nil) (
                                    member (codes "zone") (obj place) (
                                      member (codes "pool") pool (
                                        member (codes "physicalblockdevice_set") (arr nil) (
                                          member (codes "blockdevice_set") (arr nil)
                                            end))))))))))))))))))))

same_members : (m n : Members ℕ) → ◌≡◌ {A = Value ℕ} (obj m) (obj n) → m ≡ n
same_members m n h = cc

pooled :
    (m : Members ℕ)
    → strict (field_map (machine_fields bench juju)) (obj (machine_source (obj place))) ≡ ok (obj m)
    → Shaped (nil_or (string_map any)) (at (codes "pool") m)
unfolding at field codes list_eq nat_eq
pooled m given =
    rw
      (sym (
        same_members (machine_source (obj place)) m
          (strict_same (field_map (machine_fields bench juju)) _ _ given)))
      (inr (inl (place, refl, (tt, (tt, (tt, tt))))))

machine_2_0-NoPanic_example : NoPanic bench (machine_2_0 bench juju (machine_source (obj place)))
machine_2_0-NoPanic_example = machine_2_0-NoPanic bench juju (machine_source (obj place)) pooled

-- A pool that is neither nil nor a map passes the check of a machine, and the reading panics.
text_pool_panics : machine_2_0 bench juju (machine_source (str (codes "default"))) ≡ err panicked
unfolding machine_2_0 machine_fields checked at codes list_eq nat_eq zone_2_0 zone_fields read_items
    pool_of field
text_pool_panics = refl
