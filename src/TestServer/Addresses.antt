-- ===== src/TestServer/Addresses.antt =====
-- testservice_utils.go: IP addresses as 64-bit integers, and the identifier that a name or a number
-- stands for.
pub mod Laws
use gomaasapi.Prelude.{
  ℕ, ◌+◌, ◌-◌, ◌*◌, ◌/◌, ◌%◌, ◌^◌, Bool, true, false, ◌&&◌, ◌||◌, Option, none, some, List, [], ◌∷◌,
  if◌then◌else◌, ◌==◌, nat_eq, list_eq, ltb, pos, negsuc, ℤ,
}
use gomaasapi.Strings.{Text}
use gomaasapi.Strings.Decimal.{atoi}
use gomaasapi.TestServer.Store.{Store, find}

-- net.IP, a slice of bytes: nil, the 4 bytes of a number, or the 16 bytes of two numbers, most
-- significant byte first. The functions of package net give no slice of another length.
pub data NetIp : Type 0 where
  nil : NetIp
  four : ℕ → NetIp
  sixteen : ℕ → ℕ → NetIp

-- IP
pub record Ip : Type 0 where
  pub net_ip : NetIp
  pub purpose : List Text

-- IPFromNetIP
abbrev pub ip_from_net_ip : NetIp → Ip
ip_from_net_ip net_ip = record { net_ip = net_ip; purpose = [] }

-- The 8 bytes in front of an IPv4 address of 16 bytes are 0; of the others, the first 4 are this.
abbrev pub mapped : ℕ
mapped = 0xffff * 2 ^ 32

-- net.IP.To4; `none` is nil.
unfoldable pub to4 : NetIp → Option ℕ
unfolding nat_eq
to4 nil = none
to4 (four n) = some n
to4 (sixteen high low) = if high == 0 && low / 2 ^ 32 == 0xffff then some (low % 2 ^ 32) else none

-- The first 8 bytes of net.IP.To16
high_bytes : NetIp → ℕ
high_bytes nil = 0
high_bytes (four n) = 0
high_bytes (sixteen high low) = high

-- UInt64
unfoldable pub uint64 : Ip → ℕ
unfolding to4 high_bytes
uint64 ip = elim (to4 ip.net_ip) [ some n ↦ n | none ↦ high_bytes ip.net_ip ]

-- The storage that SetUInt64 allocates: `0.0.0.0` or `2001:4860:0:2001::68`
unfoldable pub allocated : ℕ → NetIp → NetIp
allocated v nil = if ltb v (2 ^ 32) then sixteen 0 mapped else sixteen 0x2001_4860_0000_2001 0x68
allocated v ip = ip

-- The last 4 bytes of an IPv4 address, or the first 8 of another
written : ℕ → Option ℕ → NetIp → NetIp
written v four_bytes nil = nil
written v four_bytes (four n) = four (v % 2 ^ 32)
written v (some n) (sixteen high low) = sixteen high (low / 2 ^ 32 * 2 ^ 32 + v % 2 ^ 32)
written v none (sixteen high low) = sixteen v low

-- SetUInt64, of a value below 2 ^ 64
unfoldable pub set_uint64 : ℕ → Ip → Ip
unfolding allocated written to4
set_uint64 v ip =
    let storage = allocated v ip.net_ip in record ip { net_ip = written v (to4 storage) storage }

-- IPFromInt64
unfoldable pub ip_from_int64 : ℕ → Ip
unfolding set_uint64
ip_from_int64 v = set_uint64 v (ip_from_net_ip nil)

-- `uint(i)`
as_uint : ℤ → ℕ
as_uint (pos n) = n
as_uint (negsuc n) = 2 ^ 64 - n - 1

in_limits : ℕ → ℕ → ℕ → Option ℕ
in_limits min_id max_id id = if ltb id min_id || ltb max_id id then none else some id

-- NameOrIDToID; `none` is an error. A nil map has no names.
unfoldable pub name_or_id_to_id : Text → Store ℕ → ℕ → ℕ → Option ℕ
unfolding in_limits as_uint
name_or_id_to_id v name_to_id min_id max_id = elim (find v name_to_id) [
  | some id ↦ in_limits min_id max_id id
  | none ↦ elim (atoi v) [ none ↦ none | some i ↦ in_limits min_id max_id (as_uint i) ]
]
