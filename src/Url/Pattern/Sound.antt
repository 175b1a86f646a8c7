-- ===== src/Url/Pattern/Sound.antt =====
-- What a match of the search says of the URL.
use gomaasapi.Prelude.{
  ℕ, ◌≡◌, refl, ◌≢◌, ◌⊎◌, some, [], ◌∷◌, ◌++◌, arith, nat_eq, list_eq, append_assoc, ap, All,
  Bool-cases, inl, inr, ◌∙◌, Option-cases,
}
use gomaasapi.Strings.{Text, codes, slash}
use gomaasapi.Url.{span_digits, at_end, match_minor, match_dot, match_tail, search_base}
use gomaasapi.Url.Pattern.{Digits, IsVersion, Ends, span_digits_lem, at_end_sound}

-- What a match found behind `base` says of the text.
pub record Found (base s : Text) (m : Text × Text) : Type 0 where
  pub front : Text
  pub base_eq : m.0 ≡ base ++ (front ++ slash)
  pub front_line : All (λ c. c ≢ b'\n') front
  pub version_IsVersion : IsVersion m.1
  pub rest : Text
  pub rest_end : Ends rest
  pub text_eq : s ≡ front ++ (slash ++ (codes "api/" ++ m.1 ++ rest))

match_minor_sound :
    (seen ds rest v : Text)
    → match_minor seen (ds, rest) ≡ some v
    → (ds ≢ []) × (v ≡ seen ++ ds) × Ends rest
unfolding match_minor
match_minor_sound seen [] rest v h = cc
match_minor_sound seen (d ∷ ds) rest v h = elim (Bool-cases (at_end rest)) [
  | inl e ↦ (λ p. cc, ground arith, at_end_sound rest e)
  | inr e ↦ absurd (ground arith)
]

match_dot_sound :
    (ds rest v : Text)
    → match_dot (ds, rest) ≡ some v
    → (ds ≢ [])
      × ((minor rest' : Text) × Digits minor
          × (v ≡ ds ++ b'.' ∷ minor)
          × (rest ≡ b'.' ∷ (minor ++ rest'))
          × Ends rest')
unfolding match_dot
match_dot_sound [] rest v h = cc
match_dot_sound (d ∷ ds) [] v h = cc
match_dot_sound (d ∷ ds) (c ∷ rest) v h = elim (nat_eq.dec c b'.') [
  | yes e ↦
      let (s, ok) = span_digits_lem rest in
      let (ne, eq, last) =
        match_minor_sound (d ∷ ds ++ c ∷ []) (span_digits rest).0 (span_digits rest).1 v
          (ground arith) in
      (
        λ p. cc,
        (
          (span_digits rest).0,
          (span_digits rest).1,
          (ne, ok),
          eq ∙ rw (e, append_assoc),
          rw e (ap (λ t. b'.' ∷ t) s),
          last,
        ),
      )
  | no n ↦ absurd (ground arith)
]

match_tail_sound :
    (s v : Text)
    → match_tail s ≡ some v
    → IsVersion v × ((rest : Text) × Ends rest × (s ≡ codes "api/" ++ v ++ rest))
unfolding match_tail codes
match_tail_sound [] v h = cc
match_tail_sound (a ∷ []) v h = cc
match_tail_sound (a ∷ b ∷ []) v h = cc
match_tail_sound (a ∷ b ∷ c ∷ []) v h = cc
match_tail_sound (a ∷ b ∷ c ∷ d ∷ s) v h = elim (list_eq.dec (a ∷ b ∷ c ∷ d ∷ []) (codes "api/")) [
  | yes e ↦
      let (split_eq, ok) = span_digits_lem s in
      let (ne, (minor, rest, hm, v_eq, rest_eq, last)) =
        match_dot_sound (span_digits s).0 (span_digits s).1 v (ground arith) in
      (
        record {
          major = (span_digits s).0;
          minor = minor;
          major_Digits = (ne, ok);
          minor_Digits = hm;
          eq = v_eq;
        },
        (rest, last, ground (arith, append_assoc (span_digits s).0 (b'.' ∷ minor) rest)),
      )
  | no n ↦ absurd (ground arith)
]

Found-later :
    (base : Text) (c : ℕ) (s : Text) (m : Text × Text)
    → c ≢ b'\n'
    → Found (base ++ c ∷ []) s m
    → Found base (c ∷ s) m
Found-later base c s m n f = record {
  front = c ∷ f.front;
  base_eq = f.base_eq ∙ append_assoc base (c ∷ []) (f.front ++ slash);
  front_line = (n, f.front_line);
  version_IsVersion = f.version_IsVersion;
  rest = f.rest;
  rest_end = f.rest_end;
  text_eq = ap (λ t. c ∷ t) f.text_eq;
}

Found-here :
    (base s v : Text) (m : Text × Text)
    → match_tail s ≡ some v
    → (base ++ slash, v) ≡ m
    → Found base (b'/' ∷ s) m
Found-here base s v m h e =
    let (ok, (rest, last, eq)) = match_tail_sound s v h in
    rw (← e) (record {
      front = [];
      base_eq = refl;
      front_line = tt;
      version_IsVersion = ok;
      rest = rest;
      rest_end = last;
      text_eq = ap (λ t. b'/' ∷ t) eq;
    })

search_base_cases :
    (base : Text) (c : ℕ) (s : Text) (m : Text × Text)
    → search_base base (c ∷ s) ≡ some m
    → (c ≢ b'\n')
      × ((search_base (base ++ c ∷ []) s ≡ some m)
          ⊎ ((v : Text) × (c ≡ b'/') × (match_tail s ≡ some v) × ((base ++ slash, v) ≡ m)))
unfolding search_base
search_base_cases base c s m h = elim (Option-cases (search_base (base ++ c ∷ []) s)) [
  | inr (m', e) ↦ (ground arith, inl (ground arith))
  | inl e ↦ elim (Option-cases (match_tail s)) [
    | inl f ↦ absurd (ground arith)
    | inr (v, f) ↦ (ground arith, inr (v, ground arith, f, ground arith))
  ]
]

pub search_base_sound :
    (base s : Text) (m : Text × Text) → search_base base s ≡ some m → Found base s m
unfolding search_base
search_base_sound base [] m h = cc
search_base_sound base (c ∷ s) m h =
    go (search_base_cases base c s m h) (search_base_sound (base ++ c ∷ []) s m)
  where
    go :
        (c ≢ b'\n')
          × ((search_base (base ++ c ∷ []) s ≡ some m)
              ⊎ ((v : Text) × (c ≡ b'/') × (match_tail s ≡ some v) × ((base ++ slash, v) ≡ m)))
        → (search_base (base ++ c ∷ []) s ≡ some m → Found (base ++ c ∷ []) s m)
        → Found base (c ∷ s) m
    go (n, inl later) ih = Found-later base c s m n (ih later)
    go (n, inr (v, e, t, p)) ih = rw e (Found-here base s v m t p)
