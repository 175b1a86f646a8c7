-- ===== src/TestServer/Subnets/Usable.antt =====
-- The usable addresses of a subnet of IPv4 addresses.
use gomaasapi.Prelude.{ℕ, ◌+◌, ◌-◌, ◌*◌, ◌/◌, ◌^◌, ◌<◌, ◌≤◌, ◌≡◌, refl, arith, ◌∙◌, true, ltb}
use native.Mathlib.Nat.{pow-le-pow_right}
use gomaasapi.TestServer.Addresses.{
  to4, Ip, uint64, set_uint64, four, ip_from_net_ip, ip_from_int64,
}
use gomaasapi.TestServer.Addresses.Laws.{
  StandsFor, uint64-StandsFor, set_uint64-StandsFor, uint64-ip_from_int64,
}
use gomaasapi.TestServer.Subnets.{with_low_bits, before, after, first_usable, last_usable}

after_lem : (v : ℕ) → v < 2 ^ 32 → after v ≡ v + 1
unfolding after
after_lem v h = omega arith

pub before_lem : (v : ℕ) → 0 < v → v < 2 ^ 32 → before v ≡ v - 1
unfolding before
before_lem v h k = omega arith

-- An address that is moved behind another
pub advanced :
    (v n : ℕ) (ip : Ip)
    → StandsFor n ip
    → v + 1 < 2 ^ 32
    → StandsFor (v + 1) (set_uint64 (after v) ip)
advanced v n ip h k = rw (after_lem v (omega arith)) (set_uint64-StandsFor (v + 1) n ip h k)

quotient_lem : (q p : ℕ) → 2 ≤ p → (q * p + 1) / p ≡ q
quotient_lem q p h = grind arith

-- A network whose last `bits` bits are its hosts'
pub record IsNetwork (base bits : ℕ) : Type 0 where
  pub network : ℕ
  pub is_network : base ≡ network * 2 ^ bits
  pub room : 2 ≤ bits
  pub few : bits ≤ 32
  pub fits : base + 2 ^ bits ≤ 2 ^ 32

module _ (base bits : ℕ) (h : IsNetwork base bits) where
  pub four-le-pow : 4 ≤ 2 ^ bits
  four-le-pow = pow-le-pow_right {n = 2} (omega arith) {i = 2} h.room

  pub first_usable-StandsFor : StandsFor (base + 1) (first_usable (four base))
  unfolding first_usable to4 uint64
  first_usable-StandsFor =
      advanced base base (ip_from_net_ip (four base)) refl (omega (arith, four-le-pow, h.fits))

  with_low_bits_lem : with_low_bits bits (base + 1) ≡ base + 2 ^ bits - 1
  unfolding with_low_bits
  with_low_bits_lem =
      let p = four-le-pow in
      let small : ltb bits 64 ≡ true = ground (arith, h.few) in
      let q : (base + 1) / 2 ^ bits ≡ h.network =
        rw h.is_network (quotient_lem h.network (2 ^ bits) (omega arith)) in
      rw small (rw q (rw (← h.is_network) (omega arith)))

  pub uint64-last_usable : uint64 (last_usable (four base) bits) ≡ base + 2 ^ bits - 2
  unfolding last_usable ip_from_int64
  uint64-last_usable =
      let p = four-le-pow in
      let first = uint64-StandsFor (base + 1) (first_usable (four base)) first_usable-StandsFor in
      let value : before (with_low_bits bits (uint64 (first_usable (four base))))
          ≡ base + 2 ^ bits - 2 =
        rw first (
          rw with_low_bits_lem (
            before_lem (base + 2 ^ bits - 1) (omega arith) (omega (arith, h.fits))
            ∙ omega arith)) in
      rw value (uint64-ip_from_int64 (base + 2 ^ bits - 2) (omega (arith, h.fits)))
