-- ===== src/TestServer/Subnets/Gaps.antt =====
-- The loop of subnetUnreservedIPRanges on numbers.
use gomaasapi.Prelude.{
  ℕ, ◌+◌, ◌-◌, ◌<◌, ◌≤◌, Bool, false, not, ◌&&◌, ◌||◌, List, [], ◌∷◌, if◌then◌else◌, ◌==◌, nat_eq,
  ltb, leb, length, ◌≡◌, refl, arith, Bool-cases, inl, inr,
}

-- First, last and count
abbrev pub Gap : Type 0
Gap = ℕ × ℕ × ℕ

abbrev pub gap : ℕ → ℕ → Gap
gap first last = (first, last, last + 1 - first)

unfoldable pub gaps : ℕ → List ℕ → ℕ → List Gap
gaps last [] start = if start == last then [] else gap start last ∷ []
gaps last (e ∷ es) start =
    let rest = gaps last es (if e == last then start else e + 1) in
    if e == start || e == last then rest else gap start (e - 1) ∷ rest

-- The addresses are in order, from `low` to `high`, and none is there twice.
abbrev pub Rising : ℕ → ℕ → List ℕ → Type 0
Rising low high [] = Unit
Rising low high (e ∷ es) = (low ≤ e) × (e ≤ high) × Rising (e + 1) high es

abbrev pub is_in : ℕ → List ℕ → Bool
is_in a [] = false
is_in a (e ∷ es) = a == e || is_in a es

abbrev pub covers : ℕ → List Gap → Bool
covers a [] = false
covers a ((first, last, n) ∷ rest) = (leb first a && leb a last) || covers a rest

pub is_in-Rising :
    (a low high : ℕ) (es : List ℕ) → Rising low high es → a < low → is_in a es ≡ false
unfolding nat_eq
is_in-Rising a low high [] r h = refl
is_in-Rising a low high (e ∷ es) r h = ground (arith, is_in-Rising a (e + 1) high es)

pub Rising-le :
    (low low' high : ℕ) (es : List ℕ) → low ≤ low' → Rising low' high es → Rising low high es
Rising-le low low' high [] h r = tt
Rising-le low low' high (e ∷ es) h (a, b, r) = (omega arith, b, r)

Rising-end : (e high : ℕ) (es : List ℕ) → e ≡ high → Rising (e + 1) high es → es ≡ []
Rising-end e high [] h r = refl
Rising-end e high (x ∷ es) h r = absurd (omega arith)

-- Below the last address, the gaps hold exactly the addresses that are not taken.
pub covers-gaps :
    (a last : ℕ) (es : List ℕ) (start : ℕ)
    → Rising start last es
    → start ≤ last
    → a < last
    → covers a (gaps last es start) ≡ (leb start a && not (is_in a es))
unfolding gaps nat_eq
covers-gaps a last [] start r h l = ground arith
covers-gaps a last (e ∷ es) start r h l = elim (Bool-cases (e == last)) [
  | inl f ↦ let k = Rising-end e last es (ground arith) r.2 in rw k (ground arith)
  | inr f ↦ ground (arith, covers-gaps a last es (e + 1), is_in-Rising a (e + 1) last es)
]

-- The last address is held exactly if the one below it is not taken.
pub covers_last-gaps :
    (last : ℕ) (es : List ℕ) (start : ℕ)
    → Rising start last es
    → start ≤ last
    → covers last (gaps last es start) ≡ (ltb start last && not (is_in (last - 1) es))
unfolding gaps nat_eq
covers_last-gaps last [] start r h = ground arith
covers_last-gaps last (e ∷ es) start r h = elim (Bool-cases (e == last)) [
  | inl f ↦ let k = Rising-end e last es (ground arith) r.2 in rw k (ground arith)
  | inr f ↦
      ground (arith, covers_last-gaps last es (e + 1), is_in-Rising (last - 1) (e + 1) last es)
]

-- In order, in the limits, and never next to one another
abbrev pub Apart : ℕ → ℕ → List Gap → Type 0
Apart low high [] = Unit
Apart low high ((first, last, n) ∷ rest) =
    (low ≤ first)
    × (first ≤ last)
    × (last ≤ high)
    × (n ≡ last + 1 - first)
    × Apart (last + 2) high rest

Apart-le : (low low' high : ℕ) (l : List Gap) → low ≤ low' → Apart low' high l → Apart low high l
Apart-le low low' high [] h k = tt
Apart-le low low' high ((first, last, n) ∷ l) h (a, b, c, d, e) = (omega arith, b, c, d, e)

gaps_nil-Apart : (last start : ℕ) → start ≤ last → Apart start last (gaps last [] start)
unfolding gaps nat_eq
gaps_nil-Apart last start h = elim (Bool-cases (start == last)) [
  | inl f ↦ rw f tt
  | inr f ↦ rw f (omega arith)
]

pub gaps-Apart :
    (last : ℕ) (es : List ℕ) (start : ℕ)
    → Rising start last es
    → start ≤ last
    → Apart start last (gaps last es start)
unfolding gaps nat_eq
gaps-Apart last [] start r h = gaps_nil-Apart last start h
gaps-Apart last (e ∷ es) start r h = elim (Bool-cases (e == start)) [
  | inl f ↦ elim (Bool-cases (e == last)) [
    | inl g ↦
        let k = Rising-end e last es (ground arith) r.2 in
        rw (f, g) (rw k (gaps_nil-Apart last start h))
    | inr g ↦
        rw (f, g)
          (Apart-le start (e + 1) last (gaps last es (e + 1)) (omega arith)
            (gaps-Apart last es (e + 1) r.2 (ground arith)))
  ]
  | inr f ↦ elim (Bool-cases (e == last)) [
    | inl g ↦
        let k = Rising-end e last es (ground arith) r.2 in
        rw (f, g) (rw k (gaps_nil-Apart last start h))
    | inr g ↦
        let n : start < e = ground arith in
        let more = gaps-Apart last es (e + 1) r.2 (ground arith) in
        rw (f, g)
          (
            omega arith,
            omega arith,
            omega arith,
            omega arith,
            Apart-le (e - 1 + 2) (e + 1) last (gaps last es (e + 1)) (omega arith) more,
          )
  ]
]

abbrev pub total : List Gap → ℕ
total [] = 0
total ((first, last, n) ∷ rest) = n + total rest

-- Where the last two addresses are not taken, each address is taken or in a gap.
pub total-gaps :
    (last : ℕ) (es : List ℕ) (start : ℕ)
    → Rising start last es
    → start < last
    → is_in last es ≡ false
    → is_in (last - 1) es ≡ false
    → total (gaps last es start) + length es ≡ last + 1 - start
unfolding gaps nat_eq
total-gaps last [] start r h k l = ground arith
total-gaps last (e ∷ es) start r h k l = ground (arith, total-gaps last es (e + 1))
