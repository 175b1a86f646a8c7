-- ===== src/TestServer/Subnets/Statistics.antt =====
-- The statistics of a subnet agree with its unreserved ranges.
use gomaasapi.Prelude.{
  ℕ, ◌+◌, ◌-◌, ◌%◌, ◌^◌, ◌≤◌, true, false, List, map, [], ◌∷◌, some, All, if◌then◌else◌, ltb,
  length, ◌≡◌, refl, ◌∙◌, arith,
}
use gomaasapi.Strings.{Text}
use gomaasapi.TestServer.Subnets.{
  Net, TestSubnet, AddressRange, SubnetStats, subnet_statistics, largest, taken,
  append_ranges_to_ip_list,
}
use gomaasapi.TestServer.Subnets.Gaps.{total, total-gaps}
use gomaasapi.TestServer.Subnets.Usable.{four-le-pow}
use gomaasapi.TestServer.Subnets.Taken.{values, is_taken, is_in-taken, length-sort_ips}
use gomaasapi.TestServer.Subnets.Laws.{
  bounds, IsIpv4Subnet, taken-Rising, first-lt-last, subnet_unreserved_ip_ranges-gaps,
}

largest-ge : (n : ℕ) (rs : List AddressRange) → n ≤ largest n rs
unfolding largest
largest-ge n [] = omega arith
largest-ge n (r ∷ rs) =
    ground (arith, largest-ge (if ltb n r.num_addresses then r.num_addresses else n) rs)

largest-All : (n : ℕ) (rs : List AddressRange) → All (λ r. r.num_addresses ≤ largest n rs) rs
unfolding largest
largest-All n [] = tt
largest-All n (r ∷ rs) =
    let m = if ltb n r.num_addresses then r.num_addresses else n in
    (ground (arith, largest-ge m rs), largest-All m rs)

length-taken :
    (subnet : TestSubnet)
    → subnet.fixed_address_ranges ≡ []
    → length (values (taken subnet)) ≡ length subnet.in_use_ip_addresses
unfolding taken append_ranges_to_ip_list
length-taken subnet h = rw h (length-sort_ips subnet.in_use_ip_addresses)

module _ (net : Net) where
  module _ {F : Type 0} (usage_of : ℕ → ℕ → F × Text) where
    -- Where a subnet has no fixed ranges and its last two usable addresses are not in use, the
    -- addresses of the unreserved ranges are as many as the statistics say are available, these and
    -- those in use are all usable ones, and no range has more addresses than the largest.
    pub subnet_statistics_lem :
        (subnet : TestSubnet) (base bits : ℕ)
        → IsIpv4Subnet net subnet base bits
        → subnet.fixed_address_ranges ≡ []
        → is_taken (base + 2 ^ bits - 2) subnet ≡ false
        → is_taken (base + 2 ^ bits - 2 - 1) subnet ≡ false
        → (stats : SubnetStats F) × (subnet_statistics net usage_of subnet true ≡ some stats)
          × (total (map bounds stats.ranges) ≡ stats.num_available)
          × (stats.num_available + stats.num_unavailable ≡ stats.total_addresses)
          × (stats.total_addresses ≡ 2 ^ bits - 2)
          × All (λ r. r.num_addresses ≤ stats.largest_available) stats.ranges
    unfolding subnet_statistics
    subnet_statistics_lem subnet base bits h none_fixed last_free before_free =
        let (ranges, e, g) = subnet_unreserved_ip_ranges-gaps net subnet base bits h in
        let last = base + 2 ^ bits - 2 in
        let es = values (taken subnet) in
        let counted =
          total-gaps last es (base + 1) (taken-Rising net subnet base bits h)
            (first-lt-last net subnet base bits h) (is_in-taken last subnet h.ranges ∙ last_free)
            (is_in-taken (last - 1) subnet h.ranges ∙ before_free) in
        let small : ltb bits 64 ≡ true = ground (arith, h.network.few) in
        let p = four-le-pow base bits h.network in
        let all = (2 ^ bits + 2 ^ 64 - 2) % 2 ^ 64 in
        let in_use = length subnet.in_use_ip_addresses in
        let sum : total (map bounds ranges) + in_use ≡ 2 ^ bits - 2 =
          rw g (rw (← length-taken subnet none_fixed) (counted ∙ omega arith)) in
        let all_lem : all ≡ 2 ^ bits - 2 = omega (arith, h.network.fits) in
        (
          record {
            num_available = (all + 2 ^ 64 - in_use) % 2 ^ 64;
            largest_available = largest 0 ranges;
            num_unavailable = in_use;
            total_addresses = all;
            usage = (usage_of in_use all).0;
            usage_string = (usage_of in_use all).1;
            ranges = ranges;
          },
          rw (subnet_statistics, h.parses, e, h.host_bits, small) refl,
          omega (arith, sum, all_lem, h.network.fits),
          omega (arith, sum, all_lem, h.network.fits),
          all_lem,
          largest-All 0 ranges,
        )
