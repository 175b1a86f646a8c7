-- ===== src/Strings/Decimal.antt =====
-- `strconv.Itoa` (and `fmt`'s `%d`) and `strconv.Atoi`, on 64-bit integers.
use gomaasapi.Prelude.{
  ℕ, zero, suc, ◌+◌, ◌-◌, ◌*◌, ◌/◌, ◌%◌, ◌^◌, ◌≤◌, ◌<◌, ◌≡◌, refl, ◌≢◌, Option, none, some, [], ◌∷◌,
  arith, if◌then◌else◌, ltb, leb, ◌==◌, nat_eq, ◌&&◌, ℤ, pos, negsuc, InRange, Bool-cases, inl, inr,
  ltb→lt, ltb→le, max_int,
}
use gomaasapi.Strings.{Text, codes}

-- The digits of `n` in front of `acc`; `n + 1` rounds are enough.
digits : ℕ → ℕ → Text → Text
digits zero n acc = acc
digits (suc f) n acc =
    let more = digits f (n / 10) ((b'0' + n % 10) ∷ acc) in
    if ltb n 10 then (b'0' + n) ∷ acc else more

unfoldable pub itoa : ℤ → Text
unfolding digits
itoa (pos n) = digits (suc n) n []
itoa (negsuc n) = b'-' ∷ digits (suc (suc n)) (suc n) []

-- The number that digits spell behind `n`.
scan : Text → ℕ → Option ℕ
scan [] n = some n
scan (c ∷ s) n = if leb b'0' c && leb c b'9' then scan s (n * 10 + (c - b'0')) else none

-- At least one digit is wanted.
scan_digits : Text → Option ℕ
scan_digits [] = none
scan_digits (c ∷ s) = scan (c ∷ s) 0

non_negative : Option ℕ → Option ℤ
non_negative none = none
non_negative (some n) = if ltb n (2 ^ 63) then some (pos n) else none

negative : Option ℕ → Option ℤ
negative none = none
negative (some zero) = some (pos 0)
negative (some (suc n)) = if ltb n (2 ^ 63) then some (negsuc n) else none

-- The number, or `none` where `Atoi` returns an error.
unfoldable pub atoi : Text → Option ℤ
unfolding scan scan_digits non_negative negative nat_eq
atoi [] = none
atoi (c ∷ s) =
    if c == b'-'
    then negative (scan_digits s)
    else if c == b'+'
    then non_negative (scan_digits s)
    else non_negative (scan_digits (c ∷ s))

scan-digits : (f n : ℕ) (acc : Text) → n < f → scan (digits f n acc) 0 ≡ scan acc n
unfolding scan digits
scan-digits zero n acc h = elim h [ ]
scan-digits (suc f) n acc h = elim (Bool-cases (ltb n 10)) [
  | inl e ↦ ground arith
  | inr e ↦ ground (arith, scan-digits f (n / 10) ((b'0' + n % 10) ∷ acc))
]

abbrev DigitHead : Text → Type 0
DigitHead [] = ⊥
DigitHead (c ∷ s) = (b'0' ≤ c) × (c ≤ b'9')

DigitHead-ne-nil : (s : Text) → DigitHead s → s ≢ []
DigitHead-ne-nil [] d e = d
DigitHead-ne-nil (c ∷ s) d e = cc

digits-DigitHead : (f n : ℕ) (acc : Text) → n < f → DigitHead (digits f n acc)
unfolding digits
digits-DigitHead zero n acc h = elim h [ ]
digits-DigitHead (suc f) n acc h = elim (Bool-cases (ltb n 10)) [
  | inl e ↦ let small = ltb→lt n 10 e in rw e (omega arith)
  | inr e ↦
      rw e (digits-DigitHead f (n / 10) ((b'0' + n % 10) ∷ acc) (omega (arith, ltb→le n 10 e)))
]

atoi_plain :
    (s : Text) (n : ℕ) → DigitHead s → scan s 0 ≡ some n → n ≤ max_int → atoi s ≡ some (pos n)
unfolding atoi
atoi_plain [] n d e h = absurd d
atoi_plain (c ∷ s) n d e h = rw e (ground arith)

atoi_minus :
    (s : Text) (n : ℕ)
    → DigitHead s
    → scan s 0 ≡ some (suc n)
    → n ≤ max_int
    → atoi (b'-' ∷ s) ≡ some (negsuc n)
unfolding atoi
atoi_minus [] n d e h = absurd d
atoi_minus (c ∷ s) n d e h = rw e (ground arith)

pub itoa-ne-nil : (z : ℤ) → itoa z ≢ []
unfolding itoa
itoa-ne-nil (pos n) e =
    DigitHead-ne-nil (digits (suc n) n []) (digits-DigitHead (suc n) n [] (omega arith)) e
itoa-ne-nil (negsuc n) e = cc

-- Every 64-bit integer is read back from its decimal print.
pub atoi-itoa : (z : ℤ) → InRange z → atoi (itoa z) ≡ some z
unfolding itoa scan
atoi-itoa (pos n) h =
    atoi_plain (digits (suc n) n []) n (digits-DigitHead (suc n) n [] (omega arith))
      (scan-digits (suc n) n [] (omega arith)) h
atoi-itoa (negsuc n) h =
    atoi_minus (digits (suc (suc n)) (suc n) []) n
      (digits-DigitHead (suc (suc n)) (suc n) [] (omega arith))
      (scan-digits (suc (suc n)) (suc n) [] (omega arith)) h

itoa_example : itoa (negsuc 1206) ≡ codes "-1207"
unfolding itoa codes
itoa_example = refl

atoi_example :
    (atoi (codes "+9223372036854775807") ≡ some (pos 9223372036854775807))
    × (atoi (codes "9223372036854775808") ≡ none)
    × (atoi (codes "-9223372036854775808") ≡ some (negsuc 9223372036854775807))
    × (atoi (codes "-") ≡ none)
unfolding atoi codes
atoi_example = (refl, refl, refl, refl)
