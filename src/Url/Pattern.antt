-- ===== src/Url/Pattern.antt =====
-- What the pattern of `SplitVersionedURL` stands for, and its parts: digits and the end.
pub mod Complete
pub mod Sound
use mathlib.Core.Option
use gomaasapi.Prelude.{
  ℕ, ◌≡◌, refl, sym, ◌≢◌, ◌↔◌, ◌⊎◌, ==_refl, true, false, Option, none, some, List, [], ◌∷◌, ◌++◌,
  arith, nat_eq, list_eq, append_assoc, append-nil, ap, All, All-append, All-left, ◌==◌, ==_iff,
  if◌then◌else◌, Bool-cases, inl, inr, ◌∙◌, ◌&&◌, leb, Option-cases,
}
use gomaasapi.Strings.{Text, codes, slash, has_suffix}
use gomaasapi.Strings.Trim.{has_suffix_sound}
use gomaasapi.Url.{
  is_digit, span_digits, at_end, match_minor, match_dot, match_tail, search_base, split_result,
  split_versioned_url, add_api_version_to_url, ensure_trailing_slash,
}

abbrev pub Digits : Text → Type 0
Digits s = (s ≢ []) × All (λ c. is_digit c ≡ true) s

-- Two runs of digits with a dot between them.
pub record IsVersion (v : Text) : Type 0 where
  pub major : Text
  pub minor : Text
  pub major_Digits : Digits major
  pub minor_Digits : Digits minor
  pub eq : v ≡ major ++ b'.' ∷ minor

-- The URL is a base that ends in a slash, `api/`, a version and perhaps a slash; a base holds no
-- newline, which `.` does not match.
pub record Matches (url base version : Text) : Type 0 where
  pub front : Text
  pub base_eq : base ≡ front ++ slash
  pub front_line : All (λ c. c ≢ b'\n') front
  pub version_IsVersion : IsVersion version
  pub rest : Text
  pub rest_end : (rest ≡ []) ⊎ (rest ≡ slash)
  pub url_eq : url ≡ base ++ (codes "api/" ++ version ++ rest)

abbrev pub NoDigit : Text → Type 0
NoDigit [] = Unit {0}
NoDigit (c ∷ s) = is_digit c ≡ false

pub span_digits-append :
    (ds rest : Text)
    → All (λ c. is_digit c ≡ true) ds
    → NoDigit rest
    → span_digits (ds ++ rest) ≡ (ds, rest)
unfolding span_digits
span_digits-append [] [] h n = refl
span_digits-append [] (c ∷ rest) h n = rw n
span_digits-append (d ∷ ds) rest (e, h) n = rw (e, span_digits-append ds rest h n)

pub span_digits_lem :
    (s : Text)
    → (s ≡ (span_digits s).0 ++ (span_digits s).1) × All (λ c. is_digit c ≡ true) (span_digits s).0
unfolding span_digits
span_digits_lem [] = (refl, tt)
span_digits_lem (c ∷ s) = elim (Bool-cases (is_digit c)) [
  | inl e ↦ rw e (ap (λ t. c ∷ t) (span_digits_lem s).0, (e, (span_digits_lem s).1))
  | inr e ↦ rw e (refl, tt)
]

abbrev pub Ends : Text → Type 0
Ends rest = (rest ≡ []) ⊎ (rest ≡ slash)

pub Ends-NoDigit : (s : Text) → Ends s → NoDigit s
Ends-NoDigit [] h = tt
Ends-NoDigit (c ∷ s) h = ground arith

pub at_end_complete : (s : Text) → Ends s → at_end s ≡ true
unfolding at_end
at_end_complete [] h = refl
at_end_complete (c ∷ []) h = ground arith
at_end_complete (c ∷ d ∷ s) h = ground arith

pub at_end_sound : (s : Text) → at_end s ≡ true → Ends s
unfolding at_end
at_end_sound [] h = inl refl
at_end_sound (c ∷ []) h = inr (ground arith)
at_end_sound (c ∷ d ∷ s) h = cc
