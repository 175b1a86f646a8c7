-- ===== src/TestServer/Networks/Handlers/Laws.antt =====
-- The addresses that the handlers of `/ipaddresses/` reserve and release.
use mathlib.Core.Path.{subst}
use gomaasapi.Prelude.{
  ap, ==_refl, ◌+◌, true, false, Option, none, some, List, [], ◌∷◌, ◌++◌, ◌==◌, nat_eq, list_eq,
  ◌≡◌, ◌≢◌, refl, sym, ◌∙◌, inl, inr, Bool-cases, Result, ok, err, if_elim, option_elim, arith, ◌⊎◌,
}
use gomaasapi.Strings.{Text}
use gomaasapi.Strings.Counts.{times, times-append}
use gomaasapi.Http.{Platform}
use gomaasapi.Object.Maas.{MaasObject}
use gomaasapi.TestServer.Store.{Store, find, store, is_there}
use gomaasapi.TestServer.Addresses.{NetIp, nil, four, sixteen}
use gomaasapi.TestServer.Subnets.{Net}
use gomaasapi.TestServer.Networks.{NetworkServer, addresses_of, reserved_in, remove_ip_address}
use gomaasapi.TestServer.Networks.Laws.{times_in, held, remove_ip_address-counts}
use gomaasapi.TestServer.Networks.Handlers.{
  IpNet, IpNets, one_address, NetworkAnswer, network_answer, nothing, address_error, reserved_ip,
  reserve_in_network, reserve_ip_address_handler, release_ip_address_handler, address_object,
  found_network_name,
}

list_at : Text → Store (List Text) → List Text
list_at name m = elim (find name m) [ none ↦ [] | some ips ↦ ips ]

times_in-store :
    (address name : Text) (ips : List Text) (m : Store (List Text))
    → times_in (λ l. l) address (store name ips m) + times address (list_at name m)
      ≡ times_in (λ l. l) address m + times address ips
unfolding store find list_at
times_in-store address name ips [] = omega arith
times_in-store address name ips ((k, l) ∷ m) = elim (Bool-cases (k == name)) [
  | inl e ↦
      let here : list_at name ((k, l) ∷ m) ≡ l = rw (list_at, e) refl in rw (here, e) (omega arith)
  | inr e ↦
      let later : list_at name ((k, l) ∷ m) ≡ list_at name m = rw (list_at, e) refl in
      rw (later, e) (omega (arith, times_in-store address name ips m))
]

module _ (P : Platform) where
  held-reserved_in :
      (address ip name : Text) (s : NetworkServer P)
      → held P address (reserved_in P ip name s) ≡ held P address s + times address (ip ∷ [])
  unfolding reserved_in list_at
  held-reserved_in address ip name s =
      let ips = addresses_of P name s in
      omega (
        arith,
        times_in-store address name (ips ++ ip ∷ []) s.ip_addresses_per_network,
        times-append address ips (ip ∷ []),
      )

  module _ (net : Net) (nets : IpNets) (now : Text) where
    address_error-nil :
        (ip_net : IpNet) (requested : Text)
        → (requested == []) ≡ false
        → address_error P net nets now ip_net requested ≡ none
        → net.parse_ip requested ≢ nil
    unfolding address_error
    address_error-nil ip_net requested h e p =
        let refused : is_there (address_error P net nets now ip_net requested) ≡ true =
          rw (h, p) refl in
        ground arith

    -- What a reservation does: it is refused and changes nothing, or an address is added to a network,
    -- which is the one that is requested, if there is one, and which parses.
    abbrev pub Outcome :
        Text → NetworkServer P → Option (NetworkAnswer P × NetworkServer P) → Type 0
    Outcome requested s none = Unit
    Outcome requested s (some (a, s')) =
        ((a.status ≡ 400) × (s' ≡ s))
        ⊎ ((name ip : Text) × (a.status ≡ 200)
            × (s' ≡ reserved_in P ip name s)
            × ((requested == []) ≡ false → (ip ≡ requested) × (net.parse_ip requested ≢ nil)))

    added-Outcome :
        (requested name ip : Text) (s : NetworkServer P) (r : Option (Result P.Err (MaasObject P)))
        → ((requested == []) ≡ false → (ip ≡ requested) × (net.parse_ip requested ≢ nil))
        → Outcome requested s (elim r [
          | none ↦ none
          | some (err e) ↦ none
          | some (ok o) ↦ some (network_answer P 200 (one_address o), reserved_in P ip name s)
        ])
    added-Outcome requested name ip s none h = tt
    added-Outcome requested name ip s (some (err e)) h = tt
    added-Outcome requested name ip s (some (ok o)) h = inr (name, ip, refl, refl, h)

    reserve_in_network-Outcome :
        (ip_net : IpNet) (requested name : Text) (s : NetworkServer P)
        → address_error P net nets now ip_net requested ≡ none
        → Outcome requested s (
            reserve_in_network P net nets now name
              (reserved_ip P net nets now ip_net requested (addresses_of P name s))
              s)
    unfolding reserve_in_network reserved_ip
    reserve_in_network-Outcome (base, ones, bits) requested name s e =
        let ip = reserved_ip P net nets now (base, ones, bits) requested (addresses_of P name s) in
        added-Outcome requested name ip s
          (address_object P net nets now ip (reserved_in P ip name s))
          (λ h. (rw (reserved_ip, h) refl, address_error-nil (base, ones, bits) requested h e))

    reserve_ip_address_handler-Outcome :
        (network requested : Text) (s : NetworkServer P)
        → Outcome requested s (reserve_ip_address_handler P net nets now network requested s)
    unfolding reserve_ip_address_handler
    reserve_ip_address_handler-Outcome network requested s =
        option_elim (Outcome requested s) (net.parse_cidr network) _ _ (λ _. inl (refl, refl))
          (λ ip_net e.
            option_elim (Outcome requested s) (address_error P net nets now ip_net requested) _ _
              (λ f.
                option_elim (Outcome requested s)
                  (found_network_name P net nets now network s.networks) _ _ (λ g. tt)
                  (λ name g.
                    if_elim (Outcome requested s) (name == []) _ _ (λ _. inl (refl, refl))
                      (λ _. reserve_in_network-Outcome ip_net requested name s f)))
              (λ text f. inl (refl, refl)))

    release_ip_address_handler-removed :
        (ip : Text) (s s' : NetworkServer P)
        → net.parse_ip ip ≢ nil
        → remove_ip_address P ip s ≡ (true, s')
        → release_ip_address_handler P net nets now ip s ≡ (network_answer P 200 nothing, s')
    unfolding release_ip_address_handler
    release_ip_address_handler-removed ip s s' n e = go (net.parse_ip ip) refl
      where
        go :
            (x : NetIp)
            → net.parse_ip ip ≡ x
            → release_ip_address_handler P net nets now ip s ≡ (network_answer P 200 nothing, s')
        go nil p = absurd (n p)
        go (four m) p = rw (p, e) refl
        go (sixteen high low) p = rw (p, e) refl

    -- The result of the theorem below
    abbrev pub Releases : Text → NetworkServer P → NetworkServer P → Type 0
    Releases requested s s' =
        (held P requested s' ≡ held P requested s + 1)
        × (s'' : NetworkServer P) × (release_ip_address_handler P net nets now requested s'
            ≡ (network_answer P 200 nothing, s''))
        × ((address : Text) → held P address s'' ≡ held P address s)

    reserved_in-Releases :
        (requested name : Text) (s : NetworkServer P)
        → net.parse_ip requested ≢ nil
        → Releases requested s (reserved_in P requested name s)
    reserved_in-Releases requested name s n =
        let s' = reserved_in P requested name s in
        let once : held P requested s' ≡ held P requested s + 1 =
          held-reserved_in requested requested name s ∙ rw (==_refl requested) refl in
        elim (remove_ip_address-counts P requested s') [
          | inl (e, z) ↦ absurd (omega arith)
          | inr (s'', e, less, others) ↦ (
            once,
            s'',
            release_ip_address_handler-removed requested s' s'' n e,
            λ address. elim (Bool-cases (address == requested)) [
              | inl d ↦ let p : address ≡ requested = ground arith in rw p (omega arith)
              | inr d ↦
                  let distinct : (requested == address) ≡ false = ground arith in
                  others address d
                  ∙ held-reserved_in address requested name s
                  ∙ rw distinct (omega arith)
            ],
          )
        ]

    -- An address that is requested and reserved is held once more, it can be released, and then every
    -- address is held as often as before the reservation.
    pub release_ip_address_handler-reserve :
        (network requested : Text) (s s' : NetworkServer P) (a : NetworkAnswer P)
        → (requested == []) ≡ false
        → reserve_ip_address_handler P net nets now network requested s ≡ some (a, s')
        → a.status ≡ 200
        → (held P requested s' ≡ held P requested s + 1)
          × (s'' : NetworkServer P) × (release_ip_address_handler P net nets now requested s'
              ≡ (network_answer P 200 nothing, s''))
          × ((address : Text) → held P address s'' ≡ held P address s)
    release_ip_address_handler-reserve network requested s s' a h e ok200 =
        elim (subst (Outcome requested s) e
          (reserve_ip_address_handler-Outcome network requested s)) [
            | inl (bad, same) ↦ absurd (omega arith)
            | inr (name, ip, fine, added, which) ↦
                let (p, n) = which h in
                subst (Releases requested s) (sym (added ∙ ap (λ i. reserved_in P i name s) p))
                  (reserved_in-Releases requested name s n)
          ]
