-- ===== src/Machines/Devices/Laws.antt =====
-- Making a device for a machine: its arguments, and what is left of it where it cannot be configured.
use gomaasapi.Prelude.{◌≡◌, refl, ap, ◌⊎◌, inl, inr, none, [], ◌∷◌, nat_eq, list_eq, ok, err, ◌>>=◌}
use gomaasapi.Http.{Platform, World}
use gomaasapi.Schema.{Juju}
use gomaasapi.Reading.{Fault, returned, panicked, rewrap, Read}
use gomaasapi.Resources.Hosts.{Machine, Device}
use gomaasapi.Controller.{Controller}
use gomaasapi.Controller.Answers.{Reading, retraced}
use gomaasapi.Controller.Operations.{delete_resource}
use gomaasapi.Controller.Inventory.{CreateDeviceArgs, create_device}
use gomaasapi.Machines.Devices.{
  CreateMachineDeviceArgs, configure, clean_up, configured, machine_device,
  create_machine_device_args_validate, create_machine_device,
}

-- The arguments of `CreateDevice` of the controller, for a device of a machine.
abbrev pub device_args : CreateMachineDeviceArgs → Machine → CreateDeviceArgs
device_args a m = record {
  hostname = a.hostname;
  mac_addresses = a.mac_address ∷ [];
  domain = [];
  parent = m.system_id;
}

module _ (P : Platform) (J : Juju P) (c : Controller) where
  -- The result of `CreateDevice` is that of the configuration of the device that was made. Where this
  -- returns an error, the device has been deleted.
  abbrev pub Cleaned : Device → Read P Device × World P → Read P Device × World P → Type 0
  Cleaned d (ok d', w) outcome = outcome ≡ (ok d', w)
  Cleaned d (err (returned e), w) outcome =
      outcome ≡ (err (returned e), (delete_resource P c d.resource_uri w).1)
  Cleaned d (err panicked, w) outcome = outcome ≡ (err panicked, w)

  clean_up-Cleaned : (d : Device) (r : Read P Device × World P) → Cleaned d r (clean_up P J c d r)
  unfolding clean_up
  clean_up-Cleaned d (ok d', w) = refl
  clean_up-Cleaned d (err (returned e), w) = refl
  clean_up-Cleaned d (err panicked, w) = refl

  abbrev after : {A B : Type 0} → (A → Reading P B) → Read P A × World P → Read P B × World P
  after f (r, w) = elim (rewrap P.errors.trace r) [ ok a ↦ f a w | err g ↦ (err g, w) ]

  traced_bind :
      {A B : Type 0} (m : Reading P A) (f : A → Reading P B) (w w' : World P) (r : Read P A)
      → m w ≡ (r, w')
      → ◌>>=◌ (retraced P m) f w
        ≡ elim r [ ok a ↦ f a w' | err g ↦ (rewrap P.errors.trace (err g), w') ]
  traced_bind m f w w' (ok a) h = ap (after f) h
  traced_bind m f w w' (err (returned e)) h = ap (after f) h
  traced_bind m f w w' (err panicked) h = ap (after f) h

  machine_device-made :
      (a : CreateMachineDeviceArgs) (m : Machine) (w w' : World P) (r : Read P Device)
      → create_device P J c (device_args a m) w ≡ (r, w')
      → machine_device P J c a m w
        ≡ elim r [ ok d ↦ configured P J c a d w' | err g ↦ (rewrap P.errors.trace (err g), w') ]
  unfolding machine_device
  machine_device-made a m w w' r h =
      traced_bind (create_device P J c (device_args a m)) (configured P J c a) w w' r h

  -- With arguments that pass validation: where the controller makes no device, its error is traced and
  -- nothing else happens; where it does, the device is configured, and it is deleted again exactly
  -- where the configuration returns an error. That error is returned, even if the deletion fails.
  pub create_machine_device_lem :
      (a : CreateMachineDeviceArgs) (m : Machine) (w w' : World P) (r : Read P Device)
      → create_machine_device_args_validate P a ≡ none
      → create_device P J c (device_args a m) w ≡ (r, w')
      → ((f : Fault P.Err) × (r ≡ err f)
          × (create_machine_device P J c a m w ≡ (rewrap P.errors.trace (err f), w')))
        ⊎ ((d : Device) × (r ≡ ok d)
            × Cleaned d
                (configure P J c a d d.interface_set w')
                (create_machine_device P J c a m w))
  unfolding create_machine_device configured
  create_machine_device_lem a m w w' (ok d) valid made = inr (
    d,
    refl,
    rw (valid, create_machine_device)
        (rw (machine_device-made a m w w' (ok d) made) (clean_up-Cleaned d _)),
  )
  create_machine_device_lem a m w w' (err f) valid made =
      inl (f, refl, rw (valid, create_machine_device) (machine_device-made a m w w' (err f) made))
