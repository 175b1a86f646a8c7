-- ===== src/TestServer/Subnets/Laws.antt =====
-- The ranges of a subnet of IPv4 addresses.
use mathlib.Core.List.{map-append}
use gomaasapi.Prelude.{
  ℕ, ◌+◌, ◌-◌, ◌^◌, ◌<◌, ◌≤◌, Bool, true, false, not, ◌||◌, List, map, append_assoc, [], ◌∷◌, ◌++◌,
  if◌then◌else◌, ◌==◌, nat_eq, ltb, leb, ◌≡◌, refl, ap, ◌∙◌, arith, All, some, Bool-cases, inl, inr,
}
use gomaasapi.TestServer.Addresses.{four, Ip, uint64, ip_from_int64}
use gomaasapi.TestServer.Addresses.Laws.{StandsFor, uint64-StandsFor, uint64-ip_from_int64}
use gomaasapi.TestServer.Subnets.{
  TestSubnet, append_ranges_to_ip_list, taken, subnet_unreserved_ip_ranges, first_usable,
  last_usable, Net, AddressRange, new_range, unreserved_step, unreserved_loop, last_range,
}
use gomaasapi.TestServer.Subnets.Usable.{
  IsNetwork, four-le-pow, first_usable-StandsFor, uint64-last_usable, before_lem, advanced,
}
use gomaasapi.TestServer.Subnets.Taken.{
  values, Distinct, Within, IsRange, is_taken, sort_ips-Rising, is_in-taken,
}
use gomaasapi.TestServer.Subnets.Gaps.{
  Gap, gap, gaps, Rising, Rising-le, covers, covers-gaps, covers_last-gaps, Apart, gaps-Apart,
}

-- The addresses that a range holds
abbrev pub bounds : AddressRange → Gap
bounds r = (r.start_uint, r.end_uint, r.num_addresses)

if_append {ℓ} :
    {A : Type ℓ} (b : Bool) (a : A) (l : List A)
    → ((if b then [] else a ∷ []) ++ l) ≡ (if b then l else a ∷ l)
if_append true a l = refl
if_append false a l = refl

module _ (net : Net) where
  new_range-bounds :
      (start_ip end_ip : Ip)
      → uint64 start_ip ≤ uint64 end_ip
      → uint64 end_ip < 2 ^ 32
      → bounds (new_range net start_ip end_ip) ≡ gap (uint64 start_ip) (uint64 end_ip)
  unfolding new_range
  new_range-bounds start_ip end_ip h k = ground arith

  unreserved_step_lem :
      (last end_ip start_ip : Ip) (s : ℕ)
      → StandsFor s start_ip
      → s ≤ uint64 end_ip
      → uint64 end_ip ≤ uint64 last
      → uint64 last < 2 ^ 32
      → (map bounds (unreserved_step net last end_ip start_ip).0 ≡ (
          if uint64 end_ip == s || uint64 end_ip == uint64 last
          then []
          else gap s (uint64 end_ip - 1) ∷ []))
        × StandsFor
            (if uint64 end_ip == uint64 last then s else uint64 end_ip + 1)
            (unreserved_step net last end_ip start_ip).1
  unfolding unreserved_step
  unreserved_step_lem last end_ip start_ip s h a b c =
      let e = uint64-StandsFor s start_ip h in
      elim (Bool-cases (uint64 end_ip == s)) [
        | inl f ↦ elim (Bool-cases (uint64 end_ip == uint64 last)) [
          | inl g ↦ rw (e, f, g) (refl, h)
          | inr g ↦ rw (e, f, g) (refl, advanced (uint64 end_ip) s start_ip h (ground arith))
        ]
        | inr f ↦ elim (Bool-cases (uint64 end_ip == uint64 last)) [
          | inl g ↦ rw (e, f, g) (refl, h)
          | inr g ↦
              let below : s < uint64 end_ip = ground arith in
              let back = before_lem (uint64 end_ip) (omega arith) (omega arith) in
              let there = uint64-ip_from_int64 (uint64 end_ip - 1) (omega arith) in
              rw (e, f, g)
                (
                  rw back (
                      ap (λ b. b ∷ [])
                        (rw
                          (new_range-bounds start_ip (ip_from_int64 (uint64 end_ip - 1))
                            (rw (e, there) (omega arith)) (rw there (omega arith)))
                          (rw (e, there) refl))),
                  advanced (uint64 end_ip) s start_ip h (ground arith),
                )
        ]
      ]

  unreserved_loop_lem :
      (last : Ip) (ips : List Ip) (start_ip : Ip) (s : ℕ)
      → StandsFor s start_ip
      → s ≤ uint64 last
      → Rising s (uint64 last) (map uint64 ips)
      → uint64 last < 2 ^ 32
      → map bounds (
          (unreserved_loop net last ips start_ip).0
          ++ last_range net last (unreserved_loop net last ips start_ip).1)
        ≡ gaps (uint64 last) (map uint64 ips) s
  unfolding unreserved_loop last_range gaps
  unreserved_loop_lem last [] start_ip s h a r c = elim (Bool-cases (s == uint64 last)) [
    | inl f ↦ rw (uint64-StandsFor s start_ip h, f) refl
    | inr f ↦
        let e = uint64-StandsFor s start_ip h in
        rw (e, f) (ap (λ b. b ∷ []) (new_range-bounds start_ip last (rw e a) c ∙ rw e refl))
  ]
  unreserved_loop_lem last (ip ∷ ips) start_ip s h a (b, d, r) c =
      let at_end = uint64 ip == uint64 last in
      let s' = if at_end then s else uint64 ip + 1 in
      let (appended, moved) = unreserved_step_lem last ip start_ip s h b d c in
      let start_ip' = (unreserved_step net last ip start_ip).1 in
      let low : s' ≤ uint64 ip + 1 = ground arith in
      let high : s' ≤ uint64 last = ground arith in
      let rises = Rising-le s' (uint64 ip + 1) (uint64 last) (map uint64 ips) low r in
      let ih = unreserved_loop_lem last ips start_ip' s' moved high rises c in
      let ranges = (unreserved_step net last ip start_ip).0 in
      let (more, start_ip'') = unreserved_loop net last ips start_ip' in
      let rest = last_range net last start_ip'' in
      ap (map bounds) (append_assoc ranges more rest)
      ∙ map-append bounds ranges (more ++ rest)
      ∙ rw (appended, ih) (if_append (uint64 ip == s || at_end) _ _)

  -- A subnet of IPv4 addresses, all of whose addresses in use, and in fixed ranges, are usable and
  -- none of which is there twice
  pub record IsIpv4Subnet (subnet : TestSubnet) (base bits : ℕ) : Type 0 where
    pub network : IsNetwork base bits
    pub ones : ℕ
    pub all_bits : ℕ
    pub parses : net.parse_cidr subnet.cidr ≡ some (four base, ones, all_bits)
    pub host_bits : all_bits - ones ≡ bits
    pub ranges : All IsRange subnet.fixed_address_ranges
    pub distinct :
        Distinct
          (values (append_ranges_to_ip_list subnet.fixed_address_ranges subnet.in_use_ip_addresses))
    pub within :
        Within
          (base + 1)
          (base + 2 ^ bits - 2)
          (values (append_ranges_to_ip_list subnet.fixed_address_ranges subnet.in_use_ip_addresses))

  module _ (subnet : TestSubnet) (base bits : ℕ) (h : IsIpv4Subnet subnet base bits) where
    pub taken-Rising : Rising (base + 1) (base + 2 ^ bits - 2) (values (taken subnet))
    unfolding taken
    taken-Rising =
        sort_ips-Rising (base + 1) (base + 2 ^ bits - 2)
          (append_ranges_to_ip_list subnet.fixed_address_ranges subnet.in_use_ip_addresses)
          h.distinct h.within

    pub first-lt-last : base + 1 < base + 2 ^ bits - 2
    first-lt-last = omega (arith, four-le-pow base bits h.network)

    first-le-last : base + 1 ≤ base + 2 ^ bits - 2
    first-le-last = omega (arith, first-lt-last)

    pub subnet_unreserved_ip_ranges-gaps :
        (ranges : List AddressRange) × (subnet_unreserved_ip_ranges net subnet ≡ some ranges)
        × (map bounds ranges ≡ gaps (base + 2 ^ bits - 2) (values (taken subnet)) (base + 1))
    unfolding subnet_unreserved_ip_ranges
    subnet_unreserved_ip_ranges-gaps =
        let last = last_usable (four base) bits in
        let e : uint64 last ≡ base + 2 ^ bits - 2 = uint64-last_usable base bits h.network in
        let (ranges, start_ip) =
          unreserved_loop net last (taken subnet) (first_usable (four base)) in
        (
          ranges ++ last_range net last start_ip,
          rw (subnet_unreserved_ip_ranges, h.parses, h.host_bits) refl,
          unreserved_loop_lem last (taken subnet) (first_usable (four base)) (base + 1)
                (first_usable-StandsFor base bits h.network) (rw e first-le-last)
                (rw e taken-Rising) (rw e (omega (arith, h.network.fits)))
              ∙ rw e refl,
        )

    -- For an IPv4 subnet with at least two usable addresses, whose addresses in use and fixed
    -- ranges are usable ones, none twice, the unreserved ranges are in order, apart and within the
    -- usable addresses, and each counts its addresses. They hold exactly the usable addresses that
    -- are not taken, but for the last one: it is in a range exactly if the address below it is not
    -- taken.
    pub subnet_unreserved_ip_ranges_lem :
        (a : ℕ)
        → base + 1 ≤ a
        → a ≤ base + 2 ^ bits - 2
        → (ranges : List AddressRange) × (subnet_unreserved_ip_ranges net subnet ≡ some ranges)
          × Apart (base + 1) (base + 2 ^ bits - 2) (map bounds ranges)
          × (covers a (map bounds ranges)
              ≡ not (is_taken (if a == base + 2 ^ bits - 2 then a - 1 else a) subnet))
    subnet_unreserved_ip_ranges_lem a low high =
        let last = base + 2 ^ bits - 2 in
        let (ranges, e, g) = subnet_unreserved_ip_ranges-gaps in
        let es = values (taken subnet) in
        let held : covers a (gaps last es (base + 1))
            ≡ not (is_taken (if a == last then a - 1 else a) subnet) =
          elim (Bool-cases (a == last)) [
            | inl f ↦
                let p : a ≡ last = ground arith in
                let apart : ltb (base + 1) last ≡ true = ground (arith, first-lt-last) in
                rw f (
                  rw p (
                    covers_last-gaps last es (base + 1) taken-Rising first-le-last
                    ∙ rw (apart, is_in-taken (last - 1) subnet h.ranges) refl))
            | inr f ↦
                let above : leb (base + 1) a ≡ true = ground arith in
                rw f (
                  covers-gaps a last es (base + 1) taken-Rising first-le-last (ground arith)
                  ∙ rw (above, is_in-taken a subnet h.ranges) refl)
          ] in
        (ranges, e, rw g (gaps-Apart last es (base + 1) taken-Rising first-le-last), rw g held)
