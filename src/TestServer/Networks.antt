-- ===== src/TestServer/Networks.antt =====
-- testservice.go: the networks of the test server, which nodes are connected to them, and the IP
-- addresses that are reserved. A panic is `none`. An IPNet is its IP and what Mask.Size gives.
pub mod Laws
pub mod Handlers
use gomaasapi.Prelude.{
  ℕ, ◌+◌, ◌*◌, ◌/◌, ◌%◌, ◌^◌, Bool, true, false, ◌&&◌, ◌||◌, Option, none, some, List, [], ◌∷◌,
  ◌++◌, length, if◌then◌else◌, ◌==◌, nat_eq, list_eq, Result, ok, err, ℤ, pos, negsuc,
}
use gomaasapi.Strings.{Text, codes, split}
use gomaasapi.Strings.Decimal.{atoi}
use gomaasapi.Params.{Values, get}
use gomaasapi.Value.{Value, str, obj, Members, end, member, field}
use gomaasapi.Http.{Platform}
use gomaasapi.Http.Dispatch.{Client}
use gomaasapi.Object.{
  JsonObject, Fields, Items, no_items, item, object, items, resource_uri, maasify, get_map,
  get_array, parse,
}
use gomaasapi.Object.Maas.{MaasObject, lookup, get_field, get_maas_object, new_json_maas_object}
use gomaasapi.TestServer.Store.{Store, find, store, remove, is_there}
use gomaasapi.TestServer.Addresses.{NetIp, nil, four, sixteen, ip_from_net_ip}
use gomaasapi.TestServer.Subnets.{Net}
use gomaasapi.TestServer.Registry.{Registry, subnet_at}
use gomaasapi.TestServer.Nodes.{set_field}
use gomaasapi.TestServer.Devices.{TestDevice}

-- `ips` without its first `address`, if that is there
unfoldable pub remove_first : Text → List Text → Option (List Text)
remove_first address [] = none
remove_first address (ip ∷ ips) =
    let rest = remove_first address ips in
    if ip == address then some ips else elim rest [ none ↦ none | some l ↦ some (ip ∷ l) ]

-- A loop of RemoveIPAddress: the first entry that has the address loses it.
unfoldable pub remove_from :
    {A : Type 0} → (A → List Text) → (List Text → A → A) → Text → Store A → Option (Store A)
remove_from addresses with_addresses address [] = none
remove_from addresses with_addresses address ((key, a) ∷ m) =
    let rest = remove_from addresses with_addresses address m in
    elim (remove_first address (addresses a)) [
      | some ips ↦ some ((key, with_addresses ips a) ∷ m)
      | none ↦ elim rest [ none ↦ none | some m' ↦ some ((key, a) ∷ m') ]
    ]

-- `attrs[key] = value`
unfoldable pub set_member : {F : Type 0} → Text → Value F → Members F → Members F
set_member key v end = member key v end
set_member key v (member k u m) =
    let rest = set_member key v m in if k == key then member key v m else member k u rest

-- The value under a key, where the value is a string
unfoldable pub text_at : {F : Type 0} → Text → Members F → Option Text
text_at key m = elim (field key m) [ none ↦ none | some v ↦ text_of v ]
  where
    text_of : {F : Type 0} → Value F → Option Text
    text_of (str s) = some s
    text_of v = none

module _ (P : Platform) where
  open P use {Err}

  -- The fields of TestServer that are used here
  pub record NetworkServer : Type 0 where
    pub nodes : Store (MaasObject P)
    pub networks : Store (MaasObject P)
    pub networks_per_node : Store (List Text)
    pub ip_addresses_per_network : Store (List Text)
    pub mac_addresses_per_network : Store (Store (JsonObject P.Float))
    pub devices : Store TestDevice
    pub registry : Registry
    pub client : Option Client
    pub version : Text

  abbrev pub addresses_of : Text → NetworkServer → List Text
  addresses_of network s = elim (find network s.ip_addresses_per_network) [
    | none ↦ []
    | some ips ↦ ips
  ]

  unfoldable pub reserved_in : Text → Text → NetworkServer → NetworkServer
  reserved_in address network s = record s {
    ip_addresses_per_network =
        store network (addresses_of network s ++ address ∷ []) s.ip_addresses_per_network;
  }

  in_subnet : Net → Text → Option ℕ → NetworkServer → Option NetworkServer
  in_subnet net address none s = none
  in_subnet net address (some subnet_id) s = parsed (net.parse_ip address)
    where
      parsed : NetIp → Option NetworkServer
      parsed nil = none
      parsed ip =
          let subnet = subnet_at subnet_id s.registry in
          let used = record (ip_from_net_ip ip) { purpose = codes "assigned-ip" ∷ [] } in
          let subnet' = record subnet {
            in_use_ip_addresses = subnet.in_use_ip_addresses ++ used ∷ [];
          } in
          some (record s {
            registry = record s.registry { subnets = store subnet_id subnet' s.registry.subnets };
          })

  -- NewIPAddress
  unfoldable pub new_ip_address : Net → Text → Text → NetworkServer → Option NetworkServer
  unfolding reserved_in in_subnet
  new_ip_address net address network_or_subnet s =
      if is_there (find network_or_subnet s.networks)
      then some (reserved_in address network_or_subnet s)
      else in_subnet net address (find network_or_subnet s.registry.subnet_name_to_id) s

  -- The two loops of RemoveIPAddress
  abbrev pub from_networks : Text → NetworkServer → Option (Store (List Text))
  from_networks address s =
      remove_from (λ ips. ips) (λ ips l. ips) address s.ip_addresses_per_network

  abbrev pub from_devices : Text → NetworkServer → Option (Store TestDevice)
  from_devices address s =
      remove_from (λ (d : TestDevice). d.ip_addresses)
        (λ ips (d : TestDevice). record d { ip_addresses = ips }) address s.devices

  -- RemoveIPAddress
  unfoldable pub remove_ip_address : Text → NetworkServer → Bool × NetworkServer
  remove_ip_address address s = elim (from_networks address s) [
    | some m ↦ (true, record s { ip_addresses_per_network = m })
    | none ↦ elim (from_devices address s) [
      | some devices ↦ (true, record s { devices = devices })
      | none ↦ (false, s)
    ]
  ]

  -- The map that a JSON text holds; null is the nil map.
  unfoldable pub attributes : Result Err (Value P.Float) → Option (Members P.Float)
  attributes (ok (obj m)) = some m
  attributes v = none

  made_network : Text → Members P.Float → NetworkServer → Option (MaasObject P × NetworkServer)
  made_network name attrs s =
      let uri = codes "/api/" ++ s.version ++ codes "/networks/" ++ name ++ codes "/" in
      elim (new_json_maas_object P (set_member resource_uri (str uri) attrs) s.client) [
        | none ↦ none
        | some o ↦ some (o, record s { networks = store name o s.networks })
      ]

  -- NewNetwork
  unfoldable pub new_network : Text → NetworkServer → Option (MaasObject P × NetworkServer)
  unfolding attributes made_network text_at set_member
  new_network json_text s = elim (attributes (P.unmarshal json_text)) [
    | none ↦ none
    | some attrs ↦
        if is_there (field (codes "ip") attrs) && is_there (field (codes "netmask") attrs)
        then elim (text_at (codes "name") attrs) [
          | none ↦ none
          | some name ↦ made_network name attrs s
        ]
        else none
  ]

  abbrev pub networks_of : Text → NetworkServer → List Text
  networks_of system_id s = elim (find system_id s.networks_per_node) [
    | none ↦ []
    | some names ↦ names
  ]

  -- ConnectNodeToNetwork
  unfoldable pub connect_node_to_network : Text → Text → NetworkServer → Option NetworkServer
  connect_node_to_network system_id name s =
      if is_there (find system_id s.nodes) && is_there (find name s.networks)
      then some (record s {
        networks_per_node =
            store system_id (networks_of system_id s ++ name ∷ []) s.networks_per_node;
      })
      else none

  -- `append(array, o)`
  append_item : JsonObject P.Float → Items P.Float → Items P.Float
  append_item o no_items = item o no_items
  append_item o (item a l) = item a (append_item o l)

  -- The array at `macaddress_set`: empty where there is none, `none` where it is no array
  mac_address_set : Option (JsonObject P.Float) → Option (Items P.Float)
  mac_address_set none = some no_items
  mac_address_set (some o) = elim (get_array P o) [ err e ↦ none | ok l ↦ some l ]

  -- The object of a MAC address of a node
  unfoldable pub mac_object : Text → Text → NetworkServer → Option (JsonObject P.Float)
  mac_object system_id mac_address s =
      let uri =
        codes "/api/"
        ++ s.version
        ++ codes "/nodes/"
        ++ system_id
        ++ codes "/macs/"
        ++ P.query_escape mac_address
        ++ codes "/" in
      maasify s.client
        (obj (member resource_uri (str uri) (member (codes "mac_address") (str mac_address) end)))

  macs_of : Text → NetworkServer → Store (JsonObject P.Float)
  macs_of network s = elim (find network s.mac_addresses_per_network) [
    | none ↦ []
    | some macs ↦ macs
  ]

  with_mac_address :
      Text
      → Text
      → MaasObject P
      → JsonObject P.Float
      → Items P.Float
      → NetworkServer
      → NetworkServer
  unfolding append_item macs_of
  with_mac_address system_id name node mac macs s =
      let node' = record node {
        values =
            set_field (codes "macaddress_set")
              (object (items (append_item mac macs)) none s.client false) node.values;
      } in
      record s {
        nodes = store system_id node' s.nodes;
        networks_per_node =
            store system_id (networks_of system_id s ++ name ∷ []) s.networks_per_node;
        mac_addresses_per_network =
            store name (store system_id mac (macs_of name s)) s.mac_addresses_per_network;
      }

  -- ConnectNodeToNetworkWithMACAddress
  unfoldable pub connect_node_to_network_with_mac_address :
      Text → Text → Text → NetworkServer → Option NetworkServer
  unfolding mac_address_set with_mac_address
  connect_node_to_network_with_mac_address system_id name mac_address s =
      elim (find system_id s.nodes) [
        | none ↦ none
        | some node ↦
            if is_there (find name s.networks)
            then elim (mac_address_set (lookup P (codes "macaddress_set") node.values)) [
              | none ↦ none
              | some macs ↦ elim (mac_object system_id mac_address s) [
                | none ↦ none
                | some mac ↦ some (with_mac_address system_id name node mac macs s)
              ]
            ]
            else none
      ]
