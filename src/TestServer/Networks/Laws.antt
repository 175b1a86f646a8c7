-- ===== src/TestServer/Networks/Laws.antt =====
-- RemoveIPAddress of testservice.go, by how often an address is held.
use mathlib.Core.Path.{subst}
use gomaasapi.Prelude.{
  ℕ, ◌+◌, true, false, Option, none, some, List, [], ◌∷◌, if◌then◌else◌, ◌==◌, nat_eq, list_eq, ◌≡◌,
  refl, inl, inr, Bool-cases, Option-cases, arith, ◌⊎◌,
}
use gomaasapi.Strings.{Text}
use gomaasapi.Strings.Counts.{times}
use gomaasapi.Http.{Platform}
use gomaasapi.TestServer.Store.{Store}
use gomaasapi.TestServer.Devices.{TestDevice}
use gomaasapi.TestServer.Networks.{
  NetworkServer, remove_first, remove_from, from_networks, from_devices, remove_ip_address,
}

-- How often the entries of a map have it
abbrev pub times_in : {A : Type 0} → (A → List Text) → Text → Store A → ℕ
times_in addresses address [] = 0
times_in addresses address ((key, a) ∷ m) =
    times address (addresses a) + times_in addresses address m

-- What a removal does to the counts: there is nothing to remove, or the address is there once less.
abbrev pub Removes : {L : Type 0} → (Text → L → ℕ) → Text → L → Option L → Type 0
Removes count address l none = count address l ≡ 0
Removes count address l (some l') =
    (count address l' + 1 ≡ count address l)
    × ((other : Text) → (other == address) ≡ false → count other l' ≡ count other l)

-- Another address is not counted at the one that is removed.
times-other :
    (address ip other : Text) (ips : List Text)
    → (ip == address) ≡ true
    → (other == address) ≡ false
    → times other ips ≡ times other (ip ∷ ips)
times-other address ip other ips f d =
    let distinct : (ip == other) ≡ false = ground arith in rw distinct refl

kept-Removes :
    (address ip : Text) (ips : List Text) (r : Option (List Text))
    → (ip == address) ≡ false
    → Removes times address ips r
    → Removes times address (ip ∷ ips) (elim r [ none ↦ none | some l ↦ some (ip ∷ l) ])
kept-Removes address ip ips none f h = rw f h
kept-Removes address ip ips (some l) f (h, g) = (rw f h, λ other d. rw (g other d) refl)

remove_first-Removes :
    (address : Text) (ips : List Text) → Removes times address ips (remove_first address ips)
unfolding remove_first
remove_first-Removes address [] = refl
remove_first-Removes address (ip ∷ ips) = elim (Bool-cases (ip == address)) [
  | inl f ↦ rw f (rw f refl, λ other d. times-other address ip other ips f d)
  | inr f ↦
      rw f (
        kept-Removes address ip ips (remove_first address ips) f (remove_first-Removes address ips))
]

module _ {A : Type 0} (addresses : A → List Text) (with_addresses : List Text → A → A)
    (reads : (ips : List Text) (a : A) → addresses (with_addresses ips a) ≡ ips) where
  -- The entries behind the first, where it does not have the address
  later-Removes :
      (address key : Text) (a : A) (m : Store A) (r : Option (Store A))
      → times address (addresses a) ≡ 0
      → Removes (times_in addresses) address m r
      → Removes
          (times_in addresses)
          address
          ((key, a) ∷ m)
          (elim r [ none ↦ none | some m' ↦ some ((key, a) ∷ m') ])
  later-Removes address key a m none z h = omega arith
  later-Removes address key a m (some m') z (h, g) = (omega arith, λ other d. rw (g other d) refl)

  here-Removes :
      (address key : Text) (a : A) (m : Store A) (r : Option (List Text))
      → Removes times address (addresses a) r
      → Removes (times_in addresses) address m (remove_from addresses with_addresses address m)
      → Removes (times_in addresses) address ((key, a) ∷ m) (elim r [
        | some ips ↦ some ((key, with_addresses ips a) ∷ m)
        | none ↦ elim (remove_from addresses with_addresses address m) [
          | none ↦ none
          | some m' ↦ some ((key, a) ∷ m')
        ]
      ])
  here-Removes address key a m none z h =
      later-Removes address key a m (remove_from addresses with_addresses address m) z h
  here-Removes address key a m (some ips) (h, g) k =
      (rw (reads ips a) (omega arith), λ other d. rw (reads ips a, g other d) refl)

  remove_from-Removes :
      (address : Text) (m : Store A)
      → Removes (times_in addresses) address m (remove_from addresses with_addresses address m)
  unfolding remove_from
  remove_from-Removes address [] = refl
  remove_from-Removes address ((key, a) ∷ m) =
      here-Removes address key a m (remove_first address (addresses a))
        (remove_first-Removes address (addresses a)) (remove_from-Removes address m)

module _ (P : Platform) where
  abbrev pub in_networks : Text → Store (List Text) → ℕ
  in_networks = times_in (λ ips. ips)

  abbrev pub in_devices : Text → Store TestDevice → ℕ
  in_devices = times_in (λ (d : TestDevice). d.ip_addresses)

  -- How often an address is held, by the networks and by the devices
  abbrev pub held : Text → NetworkServer P → ℕ
  held address s = in_networks address s.ip_addresses_per_network + in_devices address s.devices

  from_networks-Removes :
      (address : Text) (s : NetworkServer P) (r : Option (Store (List Text)))
      → from_networks P address s ≡ r
      → Removes in_networks address s.ip_addresses_per_network r
  from_networks-Removes address s r e =
      subst (Removes in_networks address s.ip_addresses_per_network) e (
        remove_from-Removes (λ ips. ips) (λ ips l. ips) (λ ips l. refl) address
          s.ip_addresses_per_network)

  from_devices-Removes :
      (address : Text) (s : NetworkServer P) (r : Option (Store TestDevice))
      → from_devices P address s ≡ r
      → Removes in_devices address s.devices r
  from_devices-Removes address s r e = subst (Removes in_devices address s.devices) e (
      remove_from-Removes (λ (d : TestDevice). d.ip_addresses)
        (λ ips (d : TestDevice). record d { ip_addresses = ips }) (λ ips d. refl) address s.devices)

  pub remove_ip_address-counts :
      (address : Text) (s : NetworkServer P)
      → ((remove_ip_address P address s ≡ (false, s)) × (held address s ≡ 0))
        ⊎ ((s' : NetworkServer P) × (remove_ip_address P address s ≡ (true, s'))
            × (held address s' + 1 ≡ held address s)
            × ((other : Text) → (other == address) ≡ false → held other s' ≡ held other s))
  unfolding remove_ip_address
  remove_ip_address-counts address s = elim (Option-cases (from_networks P address s)) [
    | inr (m, e) ↦
        let (h, g) = from_networks-Removes address s (some m) e in
        inr (
          record s { ip_addresses_per_network = m },
          rw (remove_ip_address, e) refl,
          omega arith,
          λ other d. rw (g other d) refl,
        )
    | inl e ↦
        let z = from_networks-Removes address s none e in
        elim (Option-cases (from_devices P address s)) [
          | inr (devices, f) ↦
              let (h, g) = from_devices-Removes address s (some devices) f in
              inr (
                record s { devices = devices },
                rw (remove_ip_address, e, f) refl,
                omega arith,
                λ other d. rw (g other d) refl,
              )
          | inl f ↦
              let z' = from_devices-Removes address s none f in
              inl (rw (remove_ip_address, e, f) refl, omega arith)
        ]
  ]

  -- An address that nothing holds is not removed, and the server stays as it is. Of any other the
  -- removal reports that it is done: the address is held once less, every other one as often as it was.
  pub remove_ip_address_lem :
      (address : Text) (s : NetworkServer P)
      → ((remove_ip_address P address s ≡ (false, s)) × (held address s ≡ 0))
        ⊎ ((s' : NetworkServer P) × (remove_ip_address P address s ≡ (true, s'))
            × ((other : Text) → held other s' + (if other == address then 1 else 0) ≡ held other s))
  remove_ip_address_lem address s = elim (remove_ip_address-counts address s) [
    | inl nothing_held ↦ inl nothing_held
    | inr (s', e, less, others) ↦ inr (
      s',
      e,
      λ other. elim (Bool-cases (other == address)) [
        | inl d ↦ let p : other ≡ address = ground arith in rw d (rw p less)
        | inr d ↦ rw d (omega (arith, others other d))
      ],
    )
  ]
