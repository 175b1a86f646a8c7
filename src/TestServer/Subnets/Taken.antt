-- ===== src/TestServer/Subnets/Taken.antt =====
-- The addresses of a subnet that are taken, in order.
use mathlib.Core.List.{map-append}
use gomaasapi.Prelude.{
  ℕ, zero, suc, ◌+◌, ◌-◌, ◌^◌, ◌<◌, ◌≤◌, Bool, false, ◌&&◌, ◌||◌, List, map, [], ◌∷◌, ◌++◌, ◌==◌,
  nat_eq, ltb, leb, length, ◌≡◌, refl, ◌∙◌, arith, Bool-cases, inl, inr, All,
}
use gomaasapi.Strings.{Text}
use gomaasapi.TestServer.Addresses.{Ip, uint64, ip_from_int64}
use gomaasapi.TestServer.Addresses.Laws.{uint64-ip_from_int64}
use gomaasapi.TestServer.Subnets.{
  AddressRange, TestSubnet, insert_ip, sort_ips, range_ips, append_ranges_to_ip_list, taken,
}
use gomaasapi.TestServer.Subnets.Gaps.{Rising, is_in}

abbrev pub values : List Ip → List ℕ
values ips = map uint64 ips

abbrev pub Distinct : List ℕ → Type 0
Distinct [] = Unit
Distinct (e ∷ es) = (is_in e es ≡ false) × Distinct es

abbrev pub Within : ℕ → ℕ → List ℕ → Type 0
Within low high es = All (λ e. (low ≤ e) × (e ≤ high)) es

is_in-insert_ip :
    (a : ℕ) (x : Ip) (l : List Ip)
    → is_in a (values (insert_ip x l)) ≡ (a == uint64 x || is_in a (values l))
unfolding insert_ip
is_in-insert_ip a x [] = refl
is_in-insert_ip a x (y ∷ l) = ground (arith, is_in-insert_ip a x l)

insert_ip-Rising :
    (low high : ℕ) (x : Ip) (l : List Ip)
    → Rising low high (values l)
    → low ≤ uint64 x
    → uint64 x ≤ high
    → is_in (uint64 x) (values l) ≡ false
    → Rising low high (values (insert_ip x l))
unfolding insert_ip
insert_ip-Rising low high x [] r a b h = omega arith
insert_ip-Rising low high x (y ∷ l) r a b h = elim (Bool-cases (ltb (uint64 y) (uint64 x))) [
  | inl f ↦
      rw f (r.0, r.1, insert_ip-Rising (uint64 y + 1) high x l r.2 (ground arith) b (ground arith))
  | inr f ↦ rw f (a, b, (ground arith, r.1, r.2))
]

is_in-sort_ips : (a : ℕ) (l : List Ip) → is_in a (values (sort_ips l)) ≡ is_in a (values l)
unfolding sort_ips
is_in-sort_ips a [] = refl
is_in-sort_ips a (x ∷ l) = is_in-insert_ip a x (sort_ips l) ∙ rw (is_in-sort_ips a l) refl

pub sort_ips-Rising :
    (low high : ℕ) (l : List Ip)
    → Distinct (values l)
    → Within low high (values l)
    → Rising low high (values (sort_ips l))
unfolding sort_ips
sort_ips-Rising low high [] d w = tt
sort_ips-Rising low high (x ∷ l) (h, d) ((a, b), w) =
    insert_ip-Rising low high x (sort_ips l) (sort_ips-Rising low high l d w) a b
      (is_in-sort_ips (uint64 x) l ∙ h)

length-insert_ip : (x : Ip) (l : List Ip) → length (values (insert_ip x l)) ≡ length (values l) + 1
unfolding insert_ip
length-insert_ip x [] = omega arith
length-insert_ip x (y ∷ l) = ground (arith, length-insert_ip x l)

pub length-sort_ips : (l : List Ip) → length (values (sort_ips l)) ≡ length l
unfolding sort_ips
length-sort_ips [] = refl
length-sort_ips (x ∷ l) = length-insert_ip x (sort_ips l) ∙ omega (arith, length-sort_ips l)

-- The address is in one of the fixed ranges.
abbrev pub in_ranges : ℕ → List AddressRange → Bool
in_ranges a [] = false
in_ranges a (r ∷ rs) = (leb r.start_uint a && leb a r.end_uint) || in_ranges a rs

is_in-append : (a : ℕ) (es fs : List ℕ) → is_in a (es ++ fs) ≡ (is_in a es || is_in a fs)
is_in-append a [] fs = refl
is_in-append a (e ∷ es) fs = ground (arith, is_in-append a es fs)

with_purpose :
    (ip : Ip) (purpose : List Text) → uint64 (record ip { purpose = purpose }) ≡ uint64 ip
unfolding uint64
with_purpose ip purpose = refl

is_in-range_ips :
    (a n v : ℕ) (purpose : List Text)
    → v + n ≤ 2 ^ 64
    → is_in a (values (range_ips n v purpose)) ≡ (leb v a && ltb a (v + n))
unfolding range_ips
is_in-range_ips a zero v purpose h = ground arith
is_in-range_ips a (suc n) v purpose h =
    let first : uint64 (record (ip_from_int64 v) { purpose = purpose }) ≡ v =
      with_purpose (ip_from_int64 v) purpose ∙ uint64-ip_from_int64 v (omega arith) in
    rw first (ground (arith, is_in-range_ips a n (v + 1) purpose))

-- A range that holds 64-bit addresses
abbrev pub IsRange : AddressRange → Type 0
IsRange r = (r.start_uint ≤ r.end_uint) × (r.end_uint < 2 ^ 64)

is_in-append_ranges :
    (a : ℕ) (rs : List AddressRange) (ips : List Ip)
    → All IsRange rs
    → is_in a (values (append_ranges_to_ip_list rs ips)) ≡ (is_in a (values ips) || in_ranges a rs)
unfolding append_ranges_to_ip_list
is_in-append_ranges a [] ips h = ground arith
is_in-append_ranges a (r ∷ rs) ips ((h, h'), k) =
    let n = r.end_uint + 1 - r.start_uint in
    let new = range_ips n r.start_uint r.purpose in
    let both : is_in a (values (ips ++ new)) ≡ (is_in a (values ips) || is_in a (values new)) =
      rw (map-append uint64 ips new) (is_in-append a (values ips) (values new)) in
    let held = is_in-range_ips a n r.start_uint r.purpose (omega arith) in
    is_in-append_ranges a rs (ips ++ new) k ∙ rw both (rw held (ground arith))

-- An address is in use or in a fixed range.
abbrev pub is_taken : ℕ → TestSubnet → Bool
is_taken a subnet =
    is_in a (values subnet.in_use_ip_addresses) || in_ranges a subnet.fixed_address_ranges

pub is_in-taken :
    (a : ℕ) (subnet : TestSubnet)
    → All IsRange subnet.fixed_address_ranges
    → is_in a (values (taken subnet)) ≡ is_taken a subnet
unfolding taken
is_in-taken a subnet h =
    let rs = subnet.fixed_address_ranges in
    let ips = subnet.in_use_ip_addresses in
    is_in-sort_ips a (append_ranges_to_ip_list rs ips) ∙ is_in-append_ranges a rs ips h
