-- ===== src/Resources/Sound/Hosts.antt =====
-- The reading functions of devices do not panic, those of machines only on pools.
use gomaasapi.Prelude.{◌≡◌, refl, inl, inr, Option, none, some, ok, list_eq, nat_eq}
use gomaasapi.Strings.{codes}
use gomaasapi.Value.{Value, obj, Members}
use gomaasapi.Http.{Platform}
use gomaasapi.Schema.{Juju, any, string_map, field_map, nil_or, Shaped}
use gomaasapi.Reading.{only_two_dot_oh, at}
use gomaasapi.Reading.Sound.{NoPanic, NoPanic-bind, rewrap_step, no_panic, at-Shaped}
use gomaasapi.Reading.Sound.Steps.{
  string_step, int_step, map_step, list_step, slice_step, string_map_step,
}
use gomaasapi.Reading.Sound.Lists.{fields_step, given_step, NoPanic-items, read-NoPanic}
use gomaasapi.Versions.{Version}
use gomaasapi.Resources.Fabrics.{
  fabric_2_0, space_2_0, static_route_2_0, read_fabrics, read_spaces, read_static_routes,
}
use gomaasapi.Resources.Nics.{interface_2_0, read_interface}
use gomaasapi.Resources.Places.{
  zone_2_0, pool_2_0, boot_resource_2_0, read_zones, read_pools, read_boot_resources,
}
use gomaasapi.Resources.Storage.{blockdevice_2_0, read_block_devices}
use gomaasapi.Resources.Hosts.{
  boot_interface_of, pool_of, machine_fields, machine_2_0, device_fields, device_2_0, read_device,
  read_devices,
}
use gomaasapi.Resources.Sound.Networks.{
  fabric_2_0-NoPanic, space_2_0-NoPanic, static_route_2_0-NoPanic, interface_2_0-NoPanic,
}
use gomaasapi.Resources.Sound.Places.{zone_2_0-NoPanic, pool_2_0-NoPanic, boot_resource_2_0-NoPanic}
use gomaasapi.Resources.Sound.Storage.{blockdevice_2_0-NoPanic}

module _ (P : Platform) (J : Juju P) where
  boot_interface_of-NoPanic : (o : Option (Members P.Float)) → NoPanic P (boot_interface_of P J o)
  unfolding boot_interface_of
  boot_interface_of-NoPanic none = no_panic P _
  boot_interface_of-NoPanic (some source) =
      rewrap_step P _ _ _ (interface_2_0-NoPanic P J source) (λ i. no_panic P _)

  pool_of-NoPanic :
      (v : Value P.Float) → Shaped (nil_or (string_map any)) v → NoPanic P (pool_of P J v)
  unfolding pool_of
  pool_of-NoPanic v (inl e) = rw e (no_panic P _)
  pool_of-NoPanic v (inr (inl (m, e, h))) =
      rw e (rewrap_step P _ _ _ (pool_2_0-NoPanic P J m) (λ p. no_panic P _))
  pool_of-NoPanic v (inr (inr h)) = absurd h

  pub device_2_0-NoPanic : (source : Members P.Float) → NoPanic P (device_2_0 P J source)
  unfolding device_2_0 device_fields codes list_eq nat_eq
  device_2_0-NoPanic source = fields_step P J _ _ _ _ _ (λ m h.
      list_step P h _ _ refl (λ interfaces.
        rewrap_step P _ _ _ (NoPanic-items P J _ _ _ 0 _ (interface_2_0-NoPanic P J))
          (λ interface_set. map_step P h _ _ refl (λ zone_source.
            rewrap_step P _ _ _ (zone_2_0-NoPanic P J _) (λ zone.
              NoPanic-bind P _ _
                (pool_of-NoPanic _ (
                  at-Shaped (codes "pool") (nil_or (string_map any)) (device_fields P J) m refl
                    h.shape))
                (λ pool. string_step P h _ _ refl (λ resource_uri.
                  string_step P h _ _ refl (λ system_id. string_step P h _ _ refl (λ hostname.
                    string_step P h _ _ refl
                      (λ fqdn. slice_step P h _ _ refl (λ ip_addresses. no_panic P _)))))))))))

  -- The check of a machine lets any pool through. Where it gives nil or a map as the pool, the
  -- machine is read, or an error returned, without a panic.
  pub machine_2_0-NoPanic :
      (source : Members P.Float)
      → ((m : Members P.Float)
          → J.coerce (field_map (machine_fields P J)) (obj source) ≡ ok (obj m)
          → Shaped (nil_or (string_map any)) (at (codes "pool") m))
      → NoPanic P (machine_2_0 P J source)
  unfolding machine_2_0 machine_fields codes list_eq nat_eq
  machine_2_0-NoPanic source pools = given_step P J _ _ _ _ _ (λ m given h.
      NoPanic-bind P _ _ (boot_interface_of-NoPanic _) (λ boot_interface.
        list_step P h _ _ refl (λ interfaces.
          rewrap_step P _ _ _ (NoPanic-items P J _ _ _ 0 _ (interface_2_0-NoPanic P J))
            (λ interface_set. map_step P h _ _ refl (λ zone_source.
              rewrap_step P _ _ _ (zone_2_0-NoPanic P J _) (λ zone.
                NoPanic-bind P _ _ (pool_of-NoPanic _ (pools m given)) (λ pool.
                  list_step P h _ _ refl (λ physical.
                    rewrap_step P _ _ _ (NoPanic-items P J _ _ _ 0 _ (blockdevice_2_0-NoPanic P J))
                      (λ physical_block_devices. list_step P h _ _ refl (λ devices.
                        rewrap_step P _ _ _
                          (NoPanic-items P J _ _ _ 0 _ (blockdevice_2_0-NoPanic P J))
                          (λ block_devices. string_step P h _ _ refl (λ resource_uri.
                            string_step P h _ _ refl (λ system_id.
                              string_step P h _ _ refl (λ hostname.
                                string_step P h _ _ refl (λ fqdn. slice_step P h _ _ refl (λ tags.
                                  string_map_step P h _ _ refl (λ owner_data.
                                    string_step P h _ _ refl (λ operating_system.
                                      string_step P h _ _ refl (λ distro_series.
                                        int_step P h _ _ refl (λ memory.
                                          int_step P h _ _ refl (λ cpu_count.
                                            slice_step P h _ _ refl (λ ip_addresses.
                                              string_step P h _ _ refl (λ power_state.
                                                string_step P h _ _ refl (λ status_name.
                                                  no_panic P _))))))))))))))))))))))))

  -- A device, a list of devices, and lists of the other objects that the controller asks for are read
  -- from any answer, and at any version of the API, without a panic: each type assertion is on a field
  -- that has passed its check.
  pub readers-NoPanic :
      (c : Version) (source : Value P.Float)
      → NoPanic P (read_device P J c source)
        × NoPanic P (read_devices P J c source)
        × NoPanic P (read_interface P J c source)
        × NoPanic P (read_boot_resources P J c source)
        × NoPanic P (read_fabrics P J c source)
        × NoPanic P (read_spaces P J c source)
        × NoPanic P (read_static_routes P J c source)
        × NoPanic P (read_zones P J c source)
        × NoPanic P (read_pools P J c source)
        × NoPanic P (read_block_devices P J c source)
  unfolding read_device read_devices read_interface read_boot_resources read_fabrics read_spaces
      read_static_routes read_zones read_pools read_block_devices
  readers-NoPanic c source = (
    (read-NoPanic P J _ _ (only_two_dot_oh P (device_2_0 P J)) c source (device_2_0-NoPanic, tt)).2,
    (read-NoPanic P J _ _ (only_two_dot_oh P (device_2_0 P J)) c source (device_2_0-NoPanic, tt)).1,
    (read-NoPanic P J _ _ (only_two_dot_oh P (interface_2_0 P J)) c source
        (interface_2_0-NoPanic P J, tt)).2,
    (read-NoPanic P J _ _ (only_two_dot_oh P (boot_resource_2_0 P J)) c source
        (boot_resource_2_0-NoPanic P J, tt)).0,
    (read-NoPanic P J _ _ (only_two_dot_oh P (fabric_2_0 P J)) c source
        (fabric_2_0-NoPanic P J, tt)).0,
    (read-NoPanic P J _ _ (only_two_dot_oh P (space_2_0 P J)) c source
        (space_2_0-NoPanic P J, tt)).0,
    (read-NoPanic P J _ _ (only_two_dot_oh P (static_route_2_0 P J)) c source
        (static_route_2_0-NoPanic P J, tt)).0,
    (read-NoPanic P J _ _ (only_two_dot_oh P (zone_2_0 P J)) c source (zone_2_0-NoPanic P J, tt)).0,
    (read-NoPanic P J _ _ (only_two_dot_oh P (pool_2_0 P J)) c source (pool_2_0-NoPanic P J, tt)).0,
    (read-NoPanic P J _ _ (only_two_dot_oh P (blockdevice_2_0 P J)) c source
        (blockdevice_2_0-NoPanic P J, tt)).0,
  )
