-- ===== src/Tests/Ranges.antt =====
-- Addresses, and the ranges of a subnet, at concrete data.
use gomaasapi.Prelude.{
  ◌≡◌, refl, ◌≤◌, ◌+◌, ◌-◌, ◌^◌, ℕ, true, not, some, [], ◌∷◌, List, map, arith, All, if◌then◌else◌,
  ◌==◌, nat_eq,
}
use gomaasapi.Strings.{Text}
use gomaasapi.TestServer.Addresses.{
  four, sixteen, nil, Ip, ip_from_net_ip, mapped, to4, uint64, ip_from_int64,
}
use gomaasapi.TestServer.Addresses.Laws.{uint64-ip_from_int64}
use gomaasapi.TestServer.Subnets.{
  Net, TestSubnet, AddressRange, SubnetStats, subnet_unreserved_ip_ranges, subnet_statistics,
  append_ranges_to_ip_list,
}
use gomaasapi.TestServer.Subnets.Gaps.{Apart, covers, total}
use gomaasapi.TestServer.Subnets.Taken.{is_taken}
use gomaasapi.TestServer.Subnets.Laws.{bounds, IsIpv4Subnet, subnet_unreserved_ip_ranges_lem}
use gomaasapi.TestServer.Subnets.Statistics.{subnet_statistics_lem}
use gomaasapi.TestServer.Registry.{zero_subnet}

uint64-ip_from_int64_example : uint64 (ip_from_int64 0xac10_0001) ≡ 0xac10_0001
uint64-ip_from_int64_example = uint64-ip_from_int64 0xac10_0001 (omega arith)

-- 10.0.0.0/24
abbrev pub local_net : Net
local_net = record {
  parse_ip = λ s. nil;
  ip_string = λ ip. [];
  parse_cidr = λ s. some (four 0xa00_0000, 24, 32);
}

abbrev address : ℕ → Ip
address n = ip_from_net_ip (sixteen 0 (mapped + 0xa00_0000 + n))

abbrev two_in_use : TestSubnet
two_in_use = record zero_subnet { in_use_ip_addresses = address 9 ∷ address 1 ∷ [] }

two_in_use-IsIpv4Subnet : IsIpv4Subnet local_net two_in_use 0xa00_0000 8
unfolding append_ranges_to_ip_list uint64 to4 nat_eq
two_in_use-IsIpv4Subnet = record {
  network = record {
    network = 0xa_0000;
    is_network = refl;
    room = omega arith;
    few = omega arith;
    fits = omega arith;
  };
  ones = 24;
  all_bits = 32;
  parses = refl;
  host_bits = refl;
  ranges = tt;
  distinct = (refl, (refl, tt));
  within = ((omega arith, omega arith), ((omega arith, omega arith), tt));
}

subnet_unreserved_ip_ranges_lem_example :
    (ranges : List AddressRange) × (subnet_unreserved_ip_ranges local_net two_in_use ≡ some ranges)
    × Apart (0xa00_0000 + 1) (0xa00_0000 + 2 ^ 8 - 2) (map bounds ranges)
    × (covers 0xa00_0005 (map bounds ranges)
        ≡ not (
            is_taken
              (if 0xa00_0005 == 0xa00_0000 + 2 ^ 8 - 2 then 0xa00_0005 - 1 else 0xa00_0005)
              two_in_use))
subnet_unreserved_ip_ranges_lem_example =
    subnet_unreserved_ip_ranges_lem local_net two_in_use 0xa00_0000 8 two_in_use-IsIpv4Subnet
      0xa00_0005 (omega arith) (omega arith)

abbrev pub no_usage : ℕ → ℕ → Unit {0} × Text
no_usage n m = (tt, [])

subnet_statistics_lem_example :
    (stats : SubnetStats (Unit {0})) × (subnet_statistics local_net no_usage two_in_use true
      ≡ some stats)
    × (total (map bounds stats.ranges) ≡ stats.num_available)
    × (stats.num_available + stats.num_unavailable ≡ stats.total_addresses)
    × (stats.total_addresses ≡ 2 ^ 8 - 2)
    × All (λ r. r.num_addresses ≤ stats.largest_available) stats.ranges
unfolding uint64 to4 nat_eq
subnet_statistics_lem_example =
    subnet_statistics_lem local_net no_usage two_in_use 0xa00_0000 8 two_in_use-IsIpv4Subnet refl
      refl refl
