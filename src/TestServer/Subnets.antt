-- ===== src/TestServer/Subnets.antt =====
-- testservice_subnets.go: the subnets of the test server, and the ranges of their addresses that are
-- reserved or free. A panic is `none`; a nil slice is an empty list.
pub mod Gaps
pub mod Taken
pub mod Usable
pub mod Laws
pub mod Statistics
use gomaasapi.Prelude.{
  ℕ, zero, suc, ◌+◌, ◌-◌, ◌*◌, ◌/◌, ◌%◌, ◌^◌, Bool, true, false, not, ◌&&◌, ◌||◌, Option, none,
  some, List, [], ◌∷◌, ◌++◌, if◌then◌else◌, ◌==◌, nat_eq, list_eq, ltb, leb, length,
}
use gomaasapi.Strings.{Text}
use gomaasapi.TestServer.Addresses.{
  NetIp, nil, Ip, ip_from_net_ip, uint64, set_uint64, ip_from_int64,
}

-- Package net: ParseIP, IP.String, and ParseCIDR with the IP of the network and what Mask.Size gives
pub record Net : Type 0 where
  pub parse_ip : Text → NetIp
  pub ip_string : NetIp → Text
  pub parse_cidr : Text → Option (NetIp × ℕ × ℕ)

-- TestVLAN, of testservice_vlan.go
pub record TestVlan : Type 0 where
  pub name : Text
  pub fabric : Text
  pub vid : ℕ
  pub resource_uri : Text
  pub id : ℕ

-- AddressRange
pub record AddressRange : Type 0 where
  pub start : Text
  pub start_uint : ℕ
  pub end : Text
  pub end_uint : ℕ
  pub purpose : List Text
  pub num_addresses : ℕ

-- TestSubnet
pub record TestSubnet : Type 0 where
  pub dns_servers : List Text
  pub name : Text
  pub space : Text
  pub vlan : TestVlan
  pub gateway_ip : Text
  pub cidr : Text
  pub resource_uri : Text
  pub id : ℕ
  pub in_use_ip_addresses : List Ip
  pub fixed_address_ranges : List AddressRange

-- addressList, and sort.Sort: which of equal addresses comes first, Go leaves open.
insert_ip : Ip → List Ip → List Ip
insert_ip x [] = x ∷ []
insert_ip x (y ∷ ys) =
    let rest = insert_ip x ys in if ltb (uint64 y) (uint64 x) then y ∷ rest else x ∷ y ∷ ys

unfoldable pub sort_ips : List Ip → List Ip
unfolding insert_ip
sort_ips [] = []
sort_ips (x ∷ xs) = insert_ip x (sort_ips xs)

-- The inner loop of appendRangesToIPList, of this many rounds
range_ips : ℕ → ℕ → List Text → List Ip
range_ips zero v purpose = []
range_ips (suc rounds) v purpose =
    record (ip_from_int64 v) { purpose = purpose } ∷ range_ips rounds (v + 1) purpose

-- appendRangesToIPList. At an end of 2 ^ 64 - 1 the loop of the code would not end.
unfoldable pub append_ranges_to_ip_list : List AddressRange → List Ip → List Ip
unfolding range_ips
append_ranges_to_ip_list [] ips = ips
append_ranges_to_ip_list (r ∷ rs) ips =
    append_ranges_to_ip_list rs
      (ips ++ range_ips (r.end_uint + 1 - r.start_uint) r.start_uint r.purpose)

-- The addresses that are in use or in a fixed range, in order
unfoldable pub taken : TestSubnet → List Ip
taken subnet =
    sort_ips (append_ranges_to_ip_list subnet.fixed_address_ranges subnet.in_use_ip_addresses)

-- `v | set`, where `set` has the lowest `bits` bits
unfoldable pub with_low_bits : ℕ → ℕ → ℕ
with_low_bits bits v = let k = if ltb bits 64 then bits else 64 in v / 2 ^ k * 2 ^ k + (2 ^ k - 1)

-- `v - 1` and `v + 1` on uint64
unfoldable pub before : ℕ → ℕ
before v = (v + (2 ^ 64 - 1)) % 2 ^ 64

unfoldable pub after : ℕ → ℕ
after v = (v + 1) % 2 ^ 64

-- The first and the last usable address
unfoldable pub first_usable : NetIp → Ip
unfolding after
first_usable base =
    let start_ip = ip_from_net_ip base in set_uint64 (after (uint64 start_ip)) start_ip

unfoldable pub last_usable : NetIp → ℕ → Ip
unfolding with_low_bits before first_usable
last_usable base host_bits =
    set_uint64 (before (with_low_bits host_bits (uint64 (first_usable base)))) (ip_from_net_ip nil)

-- Whether the purposes differ; `none` where the second list is too short
unfoldable pub purpose_mismatch : List Text → List Text → Option Bool
purpose_mismatch [] start = some false
purpose_mismatch (p ∷ ps) [] = none
purpose_mismatch (p ∷ ps) (q ∷ qs) = elim (purpose_mismatch ps qs) [
  | none ↦ none
  | some rest ↦ some (not (q == p) || rest)
]

-- Whether the last range ends elsewhere, or there is none
unfoldable pub ends_before : List AddressRange → ℕ → Bool
ends_before [] last = true
ends_before (r ∷ []) last = not (r.end_uint == last)
ends_before (r ∷ s ∷ rs) last = ends_before (s ∷ rs) last

-- SubnetStats. The quotient of two float32 values, and its text, are a parameter.
pub record SubnetStats (F : Type 0) : Type 0 where
  pub num_available : ℕ
  pub largest_available : ℕ
  pub num_unavailable : ℕ
  pub total_addresses : ℕ
  pub usage : F
  pub usage_string : Text
  pub ranges : List AddressRange

largest : ℕ → List AddressRange → ℕ
largest n [] = n
largest n (r ∷ rs) = largest (if ltb n r.num_addresses then r.num_addresses else n) rs

module _ (net : Net) where
  -- AddressRangeList.Append, of one range
  unfoldable pub new_range : Ip → Ip → AddressRange
  new_range start_ip end_ip = record {
    start = net.ip_string start_ip.net_ip;
    start_uint = uint64 start_ip;
    end = net.ip_string end_ip.net_ip;
    end_uint = uint64 end_ip;
    purpose = start_ip.purpose;
    num_addresses = (1 + uint64 end_ip + 2 ^ 64 - uint64 start_ip) % 2 ^ 64;
  }

  -- One round of the loop of subnetUnreservedIPRanges: the ranges it appends, and `startIP` then
  unfoldable pub unreserved_step : Ip → Ip → Ip → List AddressRange × Ip
  unfolding after before
  unreserved_step last_usable end_ip start_ip =
      let end = uint64 end_ip in
      if end == uint64 start_ip
      then (
        [],
        if not (end == uint64 last_usable) then set_uint64 (after end) start_ip else start_ip,
      )
      else if end == uint64 last_usable
      then ([], start_ip)
      else (new_range start_ip (ip_from_int64 (before end)) ∷ [], set_uint64 (after end) start_ip)

  unfoldable pub unreserved_loop : Ip → List Ip → Ip → List AddressRange × Ip
  unreserved_loop last_usable [] start_ip = ([], start_ip)
  unreserved_loop last_usable (end_ip ∷ ips) start_ip =
      let (ranges, start_ip') = unreserved_step last_usable end_ip start_ip in
      let (more, start_ip'') = unreserved_loop last_usable ips start_ip' in
      (ranges ++ more, start_ip'')

  -- The range behind the last address in use
  unfoldable pub last_range : Ip → Ip → List AddressRange
  last_range last_usable start_ip =
      if not (uint64 start_ip == uint64 last_usable)
      then new_range start_ip last_usable ∷ []
      else []

  -- subnetUnreservedIPRanges
  unfoldable pub subnet_unreserved_ip_ranges : TestSubnet → Option (List AddressRange)
  subnet_unreserved_ip_ranges subnet = elim (net.parse_cidr subnet.cidr) [
    | none ↦ none
    | some (base, ones, bits) ↦
        let last = last_usable base (bits - ones) in
        let (ranges, start_ip) = unreserved_loop last (taken subnet) (first_usable base) in
        some (ranges ++ last_range last start_ip)
  ]

  -- The loop of subnetReservedIPRanges, with the ranges so far, `startIP` and `lastIP`
  unfoldable pub reserved_loop :
      List Ip → List AddressRange → Ip → Ip → Option (List AddressRange × Ip × Ip)
  unfolding after
  reserved_loop [] ranges start_ip last_ip = some (ranges, start_ip, last_ip)
  reserved_loop (this_ip ∷ ips) ranges start_ip last_ip =
      elim (purpose_mismatch this_ip.purpose start_ip.purpose) [
        | none ↦ none
        | some mismatch ↦
            let this = uint64 this_ip in
            let last = uint64 last_ip in
            let ends = (not (this == last) && not (this == after last)) || mismatch in
            reserved_loop ips (if ends then ranges ++ new_range start_ip last_ip ∷ [] else ranges)
              (if ends then this_ip else start_ip) this_ip
      ]

  reserved_ranges : List Ip → Option (List AddressRange)
  reserved_ranges [] = some []
  reserved_ranges (ip ∷ ips) = elim (reserved_loop (ip ∷ ips) [] ip ip) [
    | none ↦ none
    | some (ranges, start_ip, last_ip) ↦ some (
        if ends_before ranges (uint64 last_ip)
        then ranges ++ new_range start_ip last_ip ∷ []
        else ranges)
  ]

  -- subnetReservedIPRanges
  unfoldable pub subnet_reserved_ip_ranges : TestSubnet → Option (List AddressRange)
  unfolding reserved_ranges
  subnet_reserved_ip_ranges subnet = reserved_ranges (taken subnet)

  -- subnetStatistics
  unfoldable pub subnet_statistics :
      {F : Type 0} → (ℕ → ℕ → F × Text) → TestSubnet → Bool → Option (SubnetStats F)
  unfolding largest
  subnet_statistics usage_of subnet include_ranges = elim (net.parse_cidr subnet.cidr) [
    | none ↦ none
    | some (base, ones, bits) ↦ elim (subnet_unreserved_ip_ranges subnet) [
      | none ↦ none
      | some reserved ↦
          let shifted = if ltb (bits - ones) 64 then 2 ^ (bits - ones) else 0 in
          let total = (shifted + 2 ^ 64 - 2) % 2 ^ 64 in
          let unavailable = length subnet.in_use_ip_addresses in
          let (usage, text) = usage_of unavailable total in
          some (record {
            num_available = (total + 2 ^ 64 - unavailable) % 2 ^ 64;
            largest_available = largest 0 reserved;
            num_unavailable = unavailable;
            total_addresses = total;
            usage = usage;
            usage_string = text;
            ranges = if include_ranges then reserved else [];
          })
    ]
  ]
