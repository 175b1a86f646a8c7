-- ===== src/Prelude/Int.antt =====
-- Go's `int`, `int64` and `time.Duration`: signed integers, with the wrap-around of 64 bits
-- written out where the program computes with them.
use Prim.Native.Nat.{ℕ, suc, ◌+◌, ◌-◌, ◌*◌, ◌%◌, ◌^◌, ◌≤◌}
use mathlib.Core.Path.{◌≡◌, refl, ap}
use mathlib.Core.Logic.{dite}
use mathlib.Core.Bool.{Bool, true}
use native.Mathlib.Decide.{ℕ_discrete}
use gomaasapi.Prelude.Tests.{ltb, if◌then◌else◌}
use gomaasapi.Prelude.Equality.{Eq}

-- `negsuc n` is -(n + 1).
pub data ℤ : Type 0 where
  pos : ℕ → ℤ
  negsuc : ℕ → ℤ

ℤ_dec : Discrete ℤ
ℤ_dec (pos a) (pos b) = dite (ℕ_discrete a b) (λ p. yes (ap pos p)) (λ n. no (λ p. n (cc)))
ℤ_dec (pos a) (negsuc b) = no (λ p. cc)
ℤ_dec (negsuc a) (pos b) = no (λ p. cc)
ℤ_dec (negsuc a) (negsuc b) = dite (ℕ_discrete a b) (λ p. yes (ap negsuc p)) (λ n. no (λ p. n (cc)))

instance unfoldable pub int_eq : Eq ℤ
unfolding ℤ_dec ℕ_discrete
int_eq = record { dec = ℤ_dec }

abbrev pub max_int : ℕ
max_int = 2 ^ 63 - 1

-- An integer that an `int` or `int64` holds.
abbrev pub InRange : ℤ → Type 0
InRange (pos n) = n ≤ max_int
InRange (negsuc n) = n ≤ max_int

-- The `int64` with the bit pattern `n`, for `n < 2 ^ 64`.
abbrev of_bits : ℕ → ℤ
of_bits n = if ltb n (2 ^ 63) then pos n else negsuc (2 ^ 64 - n - 1)

-- The product of an integer and a constant, in `int64`.
unfoldable pub mul_int64 : ℤ → ℕ → ℤ
mul_int64 (pos n) k = of_bits ((n * k) % 2 ^ 64)
mul_int64 (negsuc n) k = of_bits ((2 ^ 64 - (suc n * k) % 2 ^ 64) % 2 ^ 64)

-- `atomic.AddInt64(&x, 1)`
unfoldable pub incr_int64 : ℤ → ℤ
incr_int64 (pos n) = of_bits ((n + 1) % 2 ^ 64)
incr_int64 (negsuc n) = of_bits ((2 ^ 64 - n) % 2 ^ 64)

-- `x <= 0`
abbrev pub not_positive : ℤ → Bool
not_positive (pos n) = ltb n 1
not_positive (negsuc n) = true

mul_int64_small : mul_int64 (pos 3) 1000 ≡ pos 3000
unfolding mul_int64
mul_int64_small = refl

mul_int64_negative : mul_int64 (negsuc 2) 1000 ≡ negsuc 2999
unfolding mul_int64
mul_int64_negative = refl
