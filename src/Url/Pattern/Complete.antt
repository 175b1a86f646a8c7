-- ===== src/Url/Pattern/Complete.antt =====
-- The search on a URL that holds a version.
use gomaasapi.Prelude.{
  ℕ, ◌≡◌, refl, ◌≢◌, ==_refl, true, none, some, [], ◌∷◌, ◌++◌, arith, nat_eq, list_eq, append_assoc,
  All, All-append,
}
use gomaasapi.Strings.{Text, codes, slash}
use gomaasapi.Url.{is_digit, span_digits, match_minor, match_dot, match_tail, search_base}
use gomaasapi.Url.Pattern.{
  Digits, IsVersion, Ends, span_digits-append, Ends-NoDigit, at_end_complete,
}

match_dot_complete :
    (major minor rest : Text)
    → Digits major
    → Digits minor
    → Ends rest
    → match_dot (span_digits (major ++ b'.' ∷ (minor ++ rest))) ≡ some (major ++ b'.' ∷ minor)
unfolding match_dot match_minor
match_dot_complete [] minor rest hM hm e = absurd (hM.0 refl)
match_dot_complete (d ∷ ds) [] rest hM hm e = absurd (hm.0 refl)
match_dot_complete (d ∷ ds) (c ∷ cs) rest hM hm e =
    rw (span_digits-append (d ∷ ds) (b'.' ∷ (c ∷ cs ++ rest)) hM.1 refl) (
      rw (span_digits-append (c ∷ cs) rest hm.1 (Ends-NoDigit rest e))
        (rw (at_end_complete rest e) (rw (==_refl {A = ℕ} b'.', append_assoc))))

match_tail_complete :
    (v rest : Text) → IsVersion v → Ends rest → match_tail (codes "api/" ++ v ++ rest) ≡ some v
unfolding match_tail codes
match_tail_complete v rest h e =
    rw (==_refl (codes "api/"), h.eq, append_assoc)
      (match_dot_complete h.major h.minor rest h.major_Digits h.minor_Digits e)

-- No base ends inside a text without slashes, before the end.
NoSlash : Text → Type 0
NoSlash s = All (λ c. c ≢ b'/') s

search_base-NoSlash :
    (base s rest : Text) → NoSlash s → Ends rest → search_base base (s ++ rest) ≡ none
unfolding search_base NoSlash match_tail
search_base-NoSlash base [] [] n e = refl
search_base-NoSlash base [] (c ∷ []) n e = ground arith
search_base-NoSlash base [] (c ∷ d ∷ rest) n e = ground arith
search_base-NoSlash base (c ∷ s) rest (p, n) e =
    ground (arith, search_base-NoSlash (base ++ c ∷ []) s rest n e)

digit-ne-slash : (c : ℕ) → is_digit c ≡ true → c ≢ b'/'
digit-ne-slash c h = ground arith

digits-NoSlash : (s : Text) → All (λ c. is_digit c ≡ true) s → NoSlash s
unfolding NoSlash
digits-NoSlash [] h = tt
digits-NoSlash (c ∷ s) (e, h) = (digit-ne-slash c e, digits-NoSlash s h)

version-NoSlash : (v : Text) → IsVersion v → NoSlash v
unfolding NoSlash
version-NoSlash v h = rw h.eq (
    All-append (λ c. c ≢ b'/') h.major (b'.' ∷ h.minor) (digits-NoSlash _ h.major_Digits.1)
      (ground arith, digits-NoSlash _ h.minor_Digits.1))

match_tail-digit : (c : ℕ) (s : Text) → is_digit c ≡ true → match_tail (c ∷ s) ≡ none
unfolding match_tail codes
match_tail-digit c [] h = refl
match_tail-digit c (d ∷ []) h = refl
match_tail-digit c (d ∷ e ∷ []) h = refl
match_tail-digit c (d ∷ e ∷ f ∷ s) h = ground arith

-- A version starts with a digit, so it is no second `api/`.
match_tail-version : (v rest : Text) → IsVersion v → match_tail (v ++ rest) ≡ none
match_tail-version v rest h = rw h.eq (go h.major (b'.' ∷ h.minor) h.major_Digits)
  where
    go : (s t : Text) → Digits s → match_tail ((s ++ t) ++ rest) ≡ none
    go [] t d = absurd (d.0 refl)
    go (c ∷ s) t d = match_tail-digit c _ d.1.0

search_base_skip :
    (base : Text) (c : ℕ) (s : Text)
    → search_base (base ++ c ∷ []) s ≡ none
    → (c ≡ b'/' → match_tail s ≡ none)
    → search_base base (c ∷ s) ≡ none
unfolding search_base
search_base_skip base c s later here = ground arith

search_base_tail :
    (base v rest : Text)
    → IsVersion v
    → Ends rest
    → search_base base (codes "api/" ++ v ++ rest) ≡ none
unfolding codes
search_base_tail base v rest h e =
    search_base_skip base b'a' _
      (search_base_skip _ b'p' _
        (search_base_skip _ b'i' _
          (search_base_skip _ b'/' _ (search_base-NoSlash _ v rest (version-NoSlash v h) e)
            (λ _. match_tail-version v rest h))
          (λ p. absurd (omega arith)))
        (λ p. absurd (omega arith)))
      (λ p. absurd (omega arith))

search_base_here :
    (base s v : Text)
    → search_base (base ++ slash) s ≡ none
    → match_tail s ≡ some v
    → search_base base (slash ++ s) ≡ some (base ++ slash, v)
unfolding search_base nat_eq
search_base_here base s v later here = rw (later, here)

pub search_base_complete :
    (base front v rest : Text)
    → All (λ c. c ≢ b'\n') front
    → IsVersion v
    → Ends rest
    → search_base base (front ++ (slash ++ (codes "api/" ++ v ++ rest)))
      ≡ some (base ++ (front ++ slash), v)
unfolding search_base
search_base_complete base [] v rest l h e =
    search_base_here base _ v (search_base_tail (base ++ slash) v rest h e)
      (match_tail_complete v rest h e)
search_base_complete base (c ∷ front) v rest (n, l) h e =
    rw (search_base_complete (base ++ c ∷ []) front v rest l h e, append_assoc) (ground arith)
