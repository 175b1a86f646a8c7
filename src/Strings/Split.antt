-- ===== src/Strings/Split.antt =====
-- What splitting at a byte gives.
use gomaasapi.Prelude.{
  ℕ, ◌+◌, ◌≡◌, refl, ◌≢◌, [], ◌∷◌, ◌++◌, append_assoc, append-nil, arith, ◌==◌, if◌then◌else◌,
  nat_eq, All, length,
}
use gomaasapi.Strings.{Text, split, split_from}

abbrev pub Lacks : ℕ → Text → Type 0
Lacks sep = All (λ c. c ≢ sep)

-- How often the byte stands in the text.
unfoldable pub occurrences : ℕ → Text → ℕ
occurrences sep [] = 0
occurrences sep (c ∷ s) = if c == sep then occurrences sep s + 1 else occurrences sep s

length-split_from : (sep : ℕ) (cur s : Text) → length (split_from sep cur s) ≡ occurrences sep s + 1
unfolding split_from occurrences
length-split_from sep cur [] = refl
length-split_from sep cur (c ∷ s) =
    ground (arith, length-split_from sep [] s, length-split_from sep (cur ++ c ∷ []) s)

pub length-split : (s : Text) (sep : ℕ) → length (split s sep) ≡ occurrences sep s + 1
unfolding split
length-split s sep = length-split_from sep [] s

split_from-append :
    (sep : ℕ) (cur a s : Text)
    → Lacks sep a
    → split_from sep cur (a ++ sep ∷ s) ≡ (cur ++ a) ∷ split_from sep [] s
unfolding split_from
split_from-append sep cur [] s h = rw append-nil (ground arith)
split_from-append sep cur (c ∷ a) s (n, h) =
    ground (arith, split_from-append sep (cur ++ c ∷ []) a s h, append_assoc cur (c ∷ []) a)

split_from-Lacks : (sep : ℕ) (cur a : Text) → Lacks sep a → split_from sep cur a ≡ (cur ++ a) ∷ []
unfolding split_from
split_from-Lacks sep cur [] h = rw append-nil
split_from-Lacks sep cur (c ∷ a) (n, h) =
    ground (arith, split_from-Lacks sep (cur ++ c ∷ []) a h, append_assoc cur (c ∷ []) a)

-- The first part is what lies in front of the first separator.
pub split-append : (sep : ℕ) (a s : Text) → Lacks sep a → split (a ++ sep ∷ s) sep ≡ a ∷ split s sep
unfolding split
split-append sep a s h = split_from-append sep [] a s h

pub split-Lacks : (sep : ℕ) (a : Text) → Lacks sep a → split a sep ≡ a ∷ []
unfolding split
split-Lacks sep a h = split_from-Lacks sep [] a h
