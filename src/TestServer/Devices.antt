-- ===== src/TestServer/Devices.antt =====
-- The handlers of `/devices/` in testservice.go, on the devices that the server holds. A panic is
-- `none`; a query and a form are `none` where they do not parse.
use gomaasapi.Prelude.{
  ℕ, Bool, Option, none, some, List, [], ◌∷◌, ◌++◌, if◌then◌else◌, ◌==◌, nat_eq, list_eq, contains,
  map, ◌&&◌,
}
use gomaasapi.Strings.{Text, codes, join}
use gomaasapi.Params.{Values, values_of, get}
use gomaasapi.TestServer.Store.{Store, find, store, remove}

-- TestDevice
pub record TestDevice : Type 0 where
  pub ip_addresses : List Text
  pub system_id : Text
  pub mac_addresses : List Text
  pub parent : Text
  pub hostname : Text
  pub api_version : Text

-- getValue
unfoldable pub get_value : Values → Text → Option Text
get_value values key = one (values_of key values)
  where
    one : List Text → Option Text
    one [] = none
    one (v ∷ []) = if v == [] then none else some v
    one (v ∷ w ∷ l) = none

non_empty : List Text → List Text
non_empty [] = []
non_empty (v ∷ l) = let rest = non_empty l in if v == [] then rest else v ∷ rest

given : List Text → Option (List Text)
given [] = none
given (v ∷ l) = some (v ∷ l)

-- getValues
unfoldable pub get_values : Values → Text → Option (List Text)
unfolding non_empty given
get_values values key = given (non_empty (values_of key values))

-- A line of the template, behind a newline and a tab
line : Text → Text
line s = 10 ∷ 9 ∷ s

-- An entry of `macaddress_set`
mac_entry : Text → Text
unfolding line
mac_entry mac =
    line (codes "    {")
    ++ line (9 ∷ codes "\"mac_address\": \"")
    ++ mac
    ++ codes "\""
    ++ line (codes "    }")

-- The template functions `allButLast` and `last`, and what the template writes for them
mac_entries : List Text → Text
unfolding mac_entry
mac_entries [] = []
mac_entries (mac ∷ []) = mac_entry mac
mac_entries (mac ∷ next ∷ macs) = mac_entry mac ++ codes "," ++ mac_entries (next ∷ macs)

-- renderDevice, with `deviceTemplate`; `%q` is a parameter.
unfoldable pub render_device : (Text → Text) → TestDevice → Text
unfolding mac_entries line
render_device quote d =
    codes "{"
    ++ line (codes "\"macaddress_set\": [")
    ++ mac_entries d.mac_addresses
    ++ line (codes "],")
    ++ line (codes "\"zone\": {")
    ++ line (codes "    \"resource_uri\": \"/MAAS/api/")
    ++ d.api_version
    ++ codes "/zones/default/\","
    ++ line (codes "    \"name\": \"default\",")
    ++ line (codes "    \"description\": \"\"")
    ++ line (codes "},")
    ++ line (codes "\"parent\": \"")
    ++ d.parent
    ++ codes "\","
    ++ line (codes "\"ip_addresses\": [")
    ++ join (map quote d.ip_addresses) (codes ", ")
    ++ codes "],"
    ++ line (codes "\"hostname\": \"")
    ++ d.hostname
    ++ codes "\","
    ++ line (codes "\"tag_names\": [],")
    ++ line (codes "\"owner\": \"maas-admin\",")
    ++ line (codes "\"system_id\": \"")
    ++ d.system_id
    ++ codes "\","
    ++ line (codes "\"resource_uri\": \"/MAAS/api/")
    ++ d.api_version
    ++ codes "/devices/"
    ++ d.system_id
    ++ codes "/\""
    ++ 10 ∷ codes "}"

-- The path of a request: `/devices/`, `/devices/<system_id>/`, or another.
pub data DeviceTarget : Type 0 where
  top : DeviceTarget
  device_at : Text → DeviceTarget
  elsewhere : DeviceTarget

-- The nonce is what generateNonce gives, `none` where it fails.
pub record DeviceRequest : Type 0 where
  pub method : Text
  pub target : DeviceTarget
  pub query : Option Values
  pub form : Option Values
  pub nonce : Option Text

pub record DeviceAnswer : Type 0 where
  pub status : ℕ
  pub body : Text

abbrev pub device_answer : ℕ → Text → DeviceAnswer
device_answer status body = record { status = status; body = body }

-- The body of http.NotFoundHandler
abbrev pub no_device : DeviceAnswer
no_device = device_answer 404 (codes "404 page not found" ++ 10 ∷ [])

-- macMatches
unfoldable pub mac_matches : Text → TestDevice → Bool
mac_matches mac device = contains device.mac_addresses mac

with_mac : Text → Store TestDevice → List TestDevice
unfolding mac_matches
with_mac mac [] = []
with_mac mac ((id, device) ∷ devices) =
    let rest = with_mac mac devices in if mac_matches mac device then device ∷ rest else rest

with_macs : List Text → Store TestDevice → List TestDevice
unfolding with_mac
with_macs [] devices = []
with_macs (mac ∷ macs) devices = with_mac mac devices ++ with_macs macs devices

all_devices : Store TestDevice → List TestDevice
all_devices [] = []
all_devices ((id, device) ∷ devices) = device ∷ all_devices devices

-- `values[key]`, with whether it is there
given_values : Text → Values → Option (List Text)
given_values key [] = none
given_values key ((name, vs) ∷ values) = if name == key then some vs else given_values key values

-- The devices that a listing is about
unfoldable pub matched_devices : Values → Store TestDevice → List TestDevice
unfolding given_values with_macs all_devices
matched_devices query devices = elim (given_values (codes "mac_address") query) [
  | none ↦ all_devices devices
  | some macs ↦ with_macs macs devices
]

module _ (quote : Text → Text) (version : Text) where
  -- deviceListingHandler
  unfoldable pub device_listing_handler : Values → Store TestDevice → DeviceAnswer
  device_listing_handler query devices = device_answer 200 (
      codes "["
      ++ join (map (render_device quote) (matched_devices query devices)) (codes ", ")
      ++ codes "]")

  made : Text → Option Text → Option (List Text) → Option Text → Option TestDevice
  made system_id (some hostname) (some macs) (some parent) = some (record {
    ip_addresses = [];
    system_id = system_id;
    mac_addresses = macs;
    parent = parent;
    hostname = hostname;
    api_version = version;
  })
  made system_id hostname macs parent = none

  -- newDeviceHandler
  unfoldable pub new_device_handler :
      Option Values → Option Text → Store TestDevice → Option (DeviceAnswer × Store TestDevice)
  unfolding made
  new_device_handler none generated devices = none
  new_device_handler (some form) none devices = none
  new_device_handler (some form) (some uuid) devices =
      let system_id = codes "node-" ++ uuid in
      elim (made system_id (get_value form (codes "hostname"))
        (get_values form (codes "mac_addresses")) (get_value form (codes "parent"))) [
          | none ↦ some (device_answer 400 [], devices)
          | some device ↦
              some (device_answer 200 (render_device quote device), store system_id device devices)
        ]

  -- The operation `claim_sticky_ip_address`
  unfoldable pub claim :
      Text
      → TestDevice
      → Option Values
      → Store TestDevice
      → Option (DeviceAnswer × Store TestDevice)
  claim system_id device none devices = none
  claim system_id device (some form) devices = elim (get_value form (codes "requested_address")) [
    | none ↦ some (device_answer 400 [], devices)
    | some address ↦
        let device' = record device { ip_addresses = device.ip_addresses ++ address ∷ [] } in
        some (device_answer 200 (render_device quote device'), store system_id device' devices)
  ]

  found_device :
      DeviceRequest
      → Text
      → Text
      → TestDevice
      → Store TestDevice
      → Option (DeviceAnswer × Store TestDevice)
  unfolding claim
  found_device r system_id op device devices =
      if r.method == codes "GET"
      then some (
        if op == [] then device_answer 200 (render_device quote device) else device_answer 400 [],
        devices,
      )
      else if r.method == codes "POST"
      then if op == codes "claim_sticky_ip_address"
        then claim system_id device r.form devices
        else some (device_answer 400 [], devices)
      else if r.method == codes "DELETE"
      then some (device_answer 204 [], remove system_id devices)
      else some (no_device, devices)

  -- deviceHandler
  unfoldable pub device_handler :
      DeviceRequest → Text → Text → Store TestDevice → Option (DeviceAnswer × Store TestDevice)
  unfolding found_device
  device_handler r system_id op devices = elim (find system_id devices) [
    | none ↦ some (no_device, devices)
    | some device ↦ found_device r system_id op device devices
  ]

  -- devicesTopLevelHandler
  unfoldable pub devices_top_level_handler :
      DeviceRequest → Values → Text → Store TestDevice → Option (DeviceAnswer × Store TestDevice)
  devices_top_level_handler r query op devices =
      if r.method == codes "GET" && op == codes "list"
      then some (device_listing_handler query devices, devices)
      else if r.method == codes "POST" && op == codes "new"
      then new_device_handler r.form r.nonce devices
      else some (device_answer 400 [], devices)

  at_target :
      DeviceRequest
      → Values
      → Text
      → DeviceTarget
      → Store TestDevice
      → Option (DeviceAnswer × Store TestDevice)
  unfolding devices_top_level_handler device_handler
  at_target r query op top devices = devices_top_level_handler r query op devices
  at_target r query op (device_at system_id) devices = device_handler r system_id op devices
  at_target r query op elsewhere devices = some (no_device, devices)

  -- devicesHandler
  unfoldable pub devices_handler :
      DeviceRequest → Store TestDevice → Option (DeviceAnswer × Store TestDevice)
  unfolding at_target
  devices_handler r devices = elim r.query [
    | none ↦ none
    | some query ↦ at_target r query (get (codes "op") query) r.target devices
  ]
