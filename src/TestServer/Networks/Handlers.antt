-- ===== src/TestServer/Networks/Handlers.antt =====
-- The handlers of `/networks/` and `/ipaddresses/` in testservice.go. A panic is `none`; a query and a
-- form are `none` where they do not parse.
pub mod Laws
use gomaasapi.Prelude.{
  ℕ, ◌+◌, ◌-◌, ◌*◌, ◌/◌, ◌%◌, Bool, Option, none, some, List, [], ◌∷◌, ◌++◌, length, if◌then◌else◌,
  ◌==◌, nat_eq, list_eq, Result, ok, err, ℤ, pos, negsuc,
}
use gomaasapi.Strings.{Text, codes, split}
use gomaasapi.Strings.Decimal.{atoi}
use gomaasapi.Params.{Values, get}
use gomaasapi.Http.{Platform}
use gomaasapi.Object.{JsonObject, Fields, get_map, parse}
use gomaasapi.Object.Maas.{MaasObject, get_field, get_maas_object}
use gomaasapi.TestServer.Store.{Store, find}
use gomaasapi.TestServer.Addresses.{NetIp, nil, four, sixteen}
use gomaasapi.TestServer.Subnets.{Net}
use gomaasapi.TestServer.Networks.{
  NetworkServer, addresses_of, reserved_in, remove_ip_address, networks_of,
}

-- An IPNet that ParseCIDR gives: its IP, and what Mask.Size gives
abbrev pub IpNet : Type 0
IpNet = NetIp × ℕ × ℕ

-- The methods of IPNet: Contains, and String, also of one that is made of an IP and the bytes of a mask
pub record IpNets : Type 0 where
  pub holds : IpNet → NetIp → Bool
  pub net_string : IpNet → Text
  pub masked_string : NetIp → List ℕ → Text

-- The parts of http.Request that the handlers read; `network` is what the pattern of a network's URL
-- finds in the path.
pub record NetworkRequest : Type 0 where
  pub method : Text
  pub network : Option Text
  pub query : Option Values
  pub form : Option Values

-- `byte(i)`
unfoldable pub to_byte : ℤ → ℕ
to_byte (pos n) = n % 256
to_byte (negsuc n) = 255 - n % 256

-- The numbers of a netmask
unfoldable pub mask_bytes : List Text → Option (List ℕ)
unfolding to_byte
mask_bytes [] = some []
mask_bytes (part ∷ parts) =
    let rest = mask_bytes parts in
    elim (atoi part) [
      | none ↦ none
      | some i ↦ elim rest [ none ↦ none | some bytes ↦ some (to_byte i ∷ bytes) ]
    ]

-- `firstIP[len(firstIP)-1] += byte(n)`; an IP of ParseCIDR is not nil.
unfoldable pub add_to_last_byte : ℕ → NetIp → NetIp
add_to_last_byte n nil = nil
add_to_last_byte n (four ip) = four (ip / 256 * 256 + (ip % 256 + n) % 256)
add_to_last_byte n (sixteen high low) = sixteen high (low / 256 * 256 + (low % 256 + n) % 256)

module _ (P : Platform) where
  open P use {Err}
  open P.errors use {error_text}

  pub data NetworkBody : Type 0 where
    nothing : NetworkBody
    not_found : NetworkBody
    message : Text → NetworkBody
    mac_list : List (Fields P.Float) → NetworkBody
    network_list : List (Option (MaasObject P)) → NetworkBody
    address_list : List (MaasObject P) → NetworkBody
    one_address : MaasObject P → NetworkBody

  pub record NetworkAnswer : Type 0 where
    pub status : ℕ
    pub body : NetworkBody

  abbrev pub network_answer : ℕ → NetworkBody → NetworkAnswer
  network_answer status body = record { status = status; body = body }

  abbrev pub not_found_answer : NetworkAnswer
  not_found_answer = network_answer 404 not_found

  -- badRequestError
  abbrev pub bad_request_answer : Text → NetworkAnswer
  bad_request_answer text = network_answer 400 (message text)

  converted : Store (JsonObject P.Float) → Option (List (Fields P.Float))
  converted [] = some []
  converted ((system_id, mac) ∷ macs) =
      let rest = converted macs in
      elim (get_map P mac) [
        | err e ↦ none
        | ok m ↦ elim rest [ none ↦ none | some l ↦ some (m ∷ l) ]
      ]

  -- networkListConnectedMACSHandler
  unfoldable pub network_list_connected_macs_handler :
      Option Text → NetworkServer P → Option NetworkAnswer
  unfolding converted
  network_list_connected_macs_handler none s = some not_found_answer
  network_list_connected_macs_handler (some network) s =
      elim (find network s.mac_addresses_per_network) [
        | none ↦ some (network_answer 200 (mac_list []))
        | some macs ↦ elim (converted macs) [
          | none ↦ none
          | some l ↦ some (network_answer 200 (mac_list l))
        ]
      ]

  networks_named : List Text → NetworkServer P → List (Option (MaasObject P))
  networks_named [] s = []
  networks_named (name ∷ names) s = find name s.networks ∷ networks_named names s

  -- networksHandler
  unfoldable pub networks_handler : NetworkRequest → NetworkServer P → Option NetworkAnswer
  unfolding network_list_connected_macs_handler networks_named
  networks_handler r s =
      if r.method == codes "GET"
      then elim r.query [
        | none ↦ none
        | some query ↦
            let system_id = get (codes "node") query in
            if get (codes "op") query == codes "list_connected_macs"
            then network_list_connected_macs_handler r.network s
            else if get (codes "op") query == []
            then if system_id == []
              then none
              else some
                  (network_answer 200 (network_list (networks_named (networks_of P system_id s) s)))
            else none
      ]
      else none

  module _ (net : Net) (nets : IpNets) (now : Text) where
    -- marshalIPAddress, at the time `now`
    unfoldable pub marshal_ip_address :
        Text → NetworkServer P → Option (Result Err (JsonObject P.Float))
    marshal_ip_address ip s =
        let uri = codes "/api/" ++ s.version ++ codes "/ipaddresses/" in
        parse P s.client (
          codes "{\"alloc_type\": 4, \"ip\": "
          ++ P.quote ip
          ++ codes ", \"resource_uri\": "
          ++ P.quote uri
          ++ codes ", \"created\": "
          ++ P.quote now
          ++ codes "}")

    -- The object of an address
    unfoldable pub address_object : Text → NetworkServer P → Option (Result Err (MaasObject P))
    address_object ip s = elim (marshal_ip_address ip s) [
      | none ↦ none
      | some (err e) ↦ some (err e)
      | some (ok o) ↦ some (get_maas_object P o)
    ]

    -- The loops of listIPAddressesHandler
    address_objects : List Text → NetworkServer P → Option (Result Err (List (MaasObject P)))
    unfolding address_object
    address_objects [] s = some (ok [])
    address_objects (ip ∷ ips) s =
        let rest = address_objects ips s in
        elim (address_object ip s) [
          | none ↦ none
          | some (err e) ↦ some (err e)
          | some (ok o) ↦ elim rest [
            | none ↦ none
            | some (err e) ↦ some (err e)
            | some (ok l) ↦ some (ok (o ∷ l))
          ]
        ]

    all_addresses : Store (List Text) → List Text
    all_addresses [] = []
    all_addresses ((network, ips) ∷ m) = ips ++ all_addresses m

    -- listIPAddressesHandler
    unfoldable pub list_ip_addresses_handler : NetworkServer P → Option NetworkAnswer
    unfolding address_objects all_addresses
    list_ip_addresses_handler s =
        elim (address_objects (all_addresses s.ip_addresses_per_network) s) [
          | none ↦ none
          | some (err e) ↦ some (bad_request_answer (error_text e))
          | some (ok l) ↦ some (network_answer 200 (address_list l))
        ]

    -- What is wrong with the address that is requested
    unfoldable pub address_error : IpNet → Text → Option Text
    address_error ip_net requested =
        if requested == [] then none else checked (net.parse_ip requested)
      where
        checked : NetIp → Option Text
        checked nil =
            some (codes "failed to detect a valid IP address from u'" ++ requested ++ codes "'")
        checked ip =
            if nets.holds ip_net ip
            then none
            else some (requested ++ codes " is not inside the range " ++ nets.net_string ip_net)

    -- The string of a network, of its fields `ip` and `netmask`
    string_of_network : MaasObject P → Option Text
    unfolding mask_bytes
    string_of_network o = elim (get_field P (codes "ip") o) [
      | err e ↦ none
      | ok ip ↦ elim (get_field P (codes "netmask") o) [
        | err e ↦ none
        | ok netmask ↦ elim (mask_bytes (split netmask b'.')) [
          | none ↦ none
          | some mask ↦ some (nets.masked_string (net.parse_ip ip) mask)
        ]
      ]
    ]

    -- The name of the network that matches, empty where there is none
    unfoldable pub found_network_name : Text → Store (MaasObject P) → Option Text
    unfolding string_of_network
    found_network_name network [] = some []
    found_network_name network ((name, o) ∷ networks) =
        let rest = found_network_name network networks in
        elim (string_of_network o) [
          | none ↦ none
          | some text ↦ if text == network then some name else rest
        ]

    -- The address that is reserved
    unfoldable pub reserved_ip : IpNet → Text → List Text → Text
    unfolding add_to_last_byte
    reserved_ip (base, ones, bits) requested ips =
        if requested == []
        then net.ip_string (add_to_last_byte ((length ips + 1) % 256) base)
        else requested

    unfoldable pub reserve_in_network :
        Text → Text → NetworkServer P → Option (NetworkAnswer × NetworkServer P)
    unfolding address_object
    reserve_in_network name ip s = elim (address_object ip (reserved_in P ip name s)) [
      | none ↦ none
      | some (err e) ↦ none
      | some (ok o) ↦ some (network_answer 200 (one_address o), reserved_in P ip name s)
    ]

    -- reserveIPAddressHandler
    unfoldable pub reserve_ip_address_handler :
        Text → Text → NetworkServer P → Option (NetworkAnswer × NetworkServer P)
    unfolding address_error found_network_name
    reserve_ip_address_handler network requested s = elim (net.parse_cidr network) [
      | none ↦ some (bad_request_answer (codes "Invalid network parameter " ++ network), s)
      | some ip_net ↦ elim (address_error ip_net requested) [
        | some text ↦ some (bad_request_answer text, s)
        | none ↦ elim (found_network_name network s.networks) [
          | none ↦ none
          | some name ↦
              if name == []
              then some (bad_request_answer (codes "No network found matching " ++ network), s)
              else reserve_in_network name (reserved_ip ip_net requested (addresses_of P name s)) s
        ]
      ]
    ]

    -- releaseIPAddressHandler
    unfoldable pub release_ip_address_handler :
        Text → NetworkServer P → NetworkAnswer × NetworkServer P
    release_ip_address_handler ip s = parsed (net.parse_ip ip)
      where
        parsed : NetIp → NetworkAnswer × NetworkServer P
        parsed nil = (not_found_answer, s)
        parsed net_ip =
            let (removed, s') = remove_ip_address P ip s in
            (if removed then network_answer 200 nothing else not_found_answer, s')

    -- ipAddressesHandler
    unfoldable pub ip_addresses_handler :
        NetworkRequest → NetworkServer P → Option (NetworkAnswer × NetworkServer P)
    ip_addresses_handler r s = elim r.form [
      | none ↦ none
      | some form ↦
          let op = get (codes "op") form in
          if r.method == codes "GET"
          then if op == []
            then elim (list_ip_addresses_handler s) [ none ↦ none | some a ↦ some (a, s) ]
            else none
          else if r.method == codes "POST"
          then if op == codes "reserve"
            then reserve_ip_address_handler (get (codes "network") form)
                (get (codes "requested_address") form) s
            else if op == codes "release"
            then some (release_ip_address_handler (get (codes "ip") form) s)
            else none
          else some (not_found_answer, s)
    ]
