-- ===== src/TestServer/Addresses/Laws.antt =====
-- What is written to an address is read back.
use gomaasapi.Prelude.{ℕ, ◌^◌, ◌<◌, ◌≡◌, some, arith}
use gomaasapi.TestServer.Addresses.{
  NetIp, nil, four, sixteen, Ip, to4, uint64, set_uint64, ip_from_int64, allocated, written,
}

-- A 64-bit value is read back from the address that is made of it.
pub uint64-ip_from_int64 : (v : ℕ) → v < 2 ^ 64 → uint64 (ip_from_int64 v) ≡ v
unfolding uint64 ip_from_int64
uint64-ip_from_int64 v h = ground arith

-- An IPv4 address, of 4 or of 16 bytes, that stands for a number
abbrev pub StandsFor : ℕ → Ip → Type 0
StandsFor n ip = to4 ip.net_ip ≡ some n

pub uint64-StandsFor : (n : ℕ) (ip : Ip) → StandsFor n ip → uint64 ip ≡ n
unfolding uint64
uint64-StandsFor n ip h = ground arith

to4-written :
    (v n : ℕ) (a : NetIp)
    → to4 a ≡ some n
    → v < 2 ^ 32
    → to4 (written v (to4 (allocated v a)) (allocated v a)) ≡ some v
unfolding to4 written allocated
to4-written v n nil e h = ground arith
to4-written v n (four m) e h = ground arith
to4-written v n (sixteen high low) e h = ground arith

-- A 32-bit value that is written to an IPv4 address leaves one, with this value.
pub set_uint64-StandsFor :
    (v n : ℕ) (ip : Ip) → StandsFor n ip → v < 2 ^ 32 → StandsFor v (set_uint64 v ip)
unfolding set_uint64
set_uint64-StandsFor v n ip h k = to4-written v n ip.net_ip h k

-- A 32-bit value makes an IPv4 address.
pub ip_from_int64-StandsFor : (v : ℕ) → v < 2 ^ 32 → StandsFor v (ip_from_int64 v)
unfolding ip_from_int64 to4
ip_from_int64-StandsFor v h = ground arith
