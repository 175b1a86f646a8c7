-- ===== src/Strings/Trim.antt =====
-- What trimming and the suffix test of `Strings` compute.
use gomaasapi.Prelude.{ℕ, ◌≡◌, refl, sym, ◌≢◌, true, [], ◌∷◌, ◌++◌, arith, nat_eq, list_eq, All, ap}
use gomaasapi.Strings.{Text, has_suffix, trim_left, trim_right, trim_cons}

-- Every byte is `d`.
abbrev pub AllEqual : ℕ → Text → Type 0
AllEqual d = All (λ c. c ≡ d)

abbrev pub NotHead : ℕ → Text → Type 0
NotHead d [] = Unit {0}
NotHead d (c ∷ s) = c ≢ d

abbrev pub NotLast : ℕ → Text → Type 0
NotLast d [] = Unit {0}
NotLast d (c ∷ []) = c ≢ d
NotLast d (c ∷ e ∷ s) = NotLast d (e ∷ s)

pub trim_left_lem :
    (s : Text) (d : ℕ)
    → (cut : Text) × (s ≡ cut ++ trim_left s d) × AllEqual d cut × NotHead d (trim_left s d)
unfolding trim_left
trim_left_lem [] d = ([], refl, tt, tt)
trim_left_lem (c ∷ s) d = elim (nat_eq.dec c d) [
  | yes e ↦ let (cut, p, q, r) = trim_left_lem s d in (c ∷ cut, ground arith, (e, q), ground arith)
  | no n ↦ ([], ground arith, tt, ground arith)
]

pub trim_left-append :
    (cut s : Text) (d : ℕ) → AllEqual d cut → NotHead d s → trim_left (cut ++ s) d ≡ s
unfolding trim_left
trim_left-append [] [] d q r = refl
trim_left-append [] (c ∷ s) d q r = ground arith
trim_left-append (c ∷ cut) s d (e, q) r = ground (arith, trim_left-append cut s d q r)

pub trim_right_lem :
    (s : Text) (d : ℕ)
    → (cut : Text) × (s ≡ trim_right s d ++ cut) × AllEqual d cut × NotLast d (trim_right s d)
unfolding trim_right
trim_right_lem [] d = ([], refl, tt, tt)
trim_right_lem (c ∷ s) d = let (cut, p, q, r) = trim_right_lem s d in go (trim_right s d) cut p q r
  where
    go :
        (t cut : Text)
        → s ≡ t ++ cut
        → AllEqual d cut
        → NotLast d t
        → (cut' : Text) × (c ∷ s ≡ trim_cons d c t ++ cut')
          × AllEqual d cut'
          × NotLast d (trim_cons d c t)
    go [] cut p q r = elim (nat_eq.dec c d) [
      | yes e ↦ (c ∷ cut, ground arith, (e, q), ground arith)
      | no n ↦ (cut, ground arith, q, ground arith)
    ]
    go (e ∷ t) cut p q r = (cut, ap (λ t. c ∷ t) p, q, r)

trim_right-AllEqual : (cut : Text) (d : ℕ) → AllEqual d cut → trim_right cut d ≡ []
unfolding trim_right
trim_right-AllEqual [] d q = refl
trim_right-AllEqual (c ∷ cut) d (e, q) = rw (trim_right-AllEqual cut d q) (ground arith)

pub trim_right-append :
    (s cut : Text) (d : ℕ) → AllEqual d cut → NotLast d s → trim_right (s ++ cut) d ≡ s
unfolding trim_right
trim_right-append [] cut d q r = trim_right-AllEqual cut d q
trim_right-append (c ∷ []) cut d q r = rw (trim_right-AllEqual cut d q) (ground arith)
trim_right-append (c ∷ e ∷ s) cut d q r = rw (trim_right-append (e ∷ s) cut d q r)

-- A text with the suffix `t` is some text in front of `t`.
pub has_suffix_sound : (s t : Text) → has_suffix s t ≡ true → (b : Text) × (s ≡ b ++ t)
unfolding has_suffix
has_suffix_sound [] t h = ([], ground arith)
has_suffix_sound (c ∷ s) t h = elim (list_eq.dec t (c ∷ s)) [
  | yes e ↦ ([], sym e)
  | no n ↦ let (b, p) = has_suffix_sound s t (ground arith) in (c ∷ b, ap (λ t. c ∷ t) p)
]

pub has_suffix-append : (b t : Text) → has_suffix (b ++ t) t ≡ true
unfolding has_suffix
has_suffix-append [] [] = ground arith
has_suffix-append [] (c ∷ t) = ground arith
has_suffix-append (c ∷ b) t = ground (arith, has_suffix-append b t)
