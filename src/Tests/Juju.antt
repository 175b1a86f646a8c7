-- ===== src/Tests/Juju.antt =====
-- A checker of values that passes those that have their shape already, to run the program with.
use gomaasapi.Prelude.{
  ◌≡◌, refl, ◌⊎◌, inl, inr, ℕ, Bool, true, false, ◌&&◌, Option, none, some, List, [], ◌∷◌, ◌++◌,
  if◌then◌else◌, ◌==◌, nat_eq, list_eq, arith, ℤ, pos, negsuc, not_positive, Result, ok, err, All,
  Bool-cases,
}
use gomaasapi.Strings.{Text, codes}
use gomaasapi.Strings.Decimal.{itoa}
use gomaasapi.Errors.{ErrorValue, other_error}
use gomaasapi.Value.{
  Value, null, str, int, uint, bool, obj, arr, Members, field, items_of, members_of,
}
use gomaasapi.Versions.{Version, two_dot_oh, version_leb}
use gomaasapi.Schema.{
  Checker, any, string, boolean, force_int, force_uint, nothing, one_of, list, string_map,
  field_map, Checkers, no_more, either, FieldList, no_fields, need, or_default, or_omit, Shaped,
  ShapedOne, ShapedFields, Juju,
}
use gomaasapi.Tests.Bench.{bench}

both_true : (a b : Bool) → a && b ≡ true → (a ≡ true) × (b ≡ true)
both_true a b h = (ground arith, ground arith)

abbrev pub all_of {ℓ} : {A : Type ℓ} → (A → Bool) → List A → Bool
all_of f [] = true
all_of f (a ∷ l) = f a && all_of f l

all_of-All {ℓ κ} :
    {A : Type ℓ} (f : A → Bool) (Q : A → Type κ)
    → ((a : A) → f a ≡ true → Q a)
    → (l : List A) → all_of f l ≡ true
    → All Q l
all_of-All f Q h [] e = tt
all_of-All f Q h (a ∷ l) e = (h a (ground arith), all_of-All f Q h l (ground arith))

abbrev pub there {ℓ} : {A : Type ℓ} → (A → Bool) → Option A → Bool
there f none = false
there f (some a) = f a

there_lem {ℓ} :
    {A : Type ℓ} (f : A → Bool) (o : Option A)
    → there f o ≡ true
    → (a : A) × (o ≡ some a) × (f a ≡ true)
there_lem f none h = absurd (cc)
there_lem f (some a) h = (a, refl, h)

abbrev pub missing_or {ℓ} : {A : Type ℓ} → (A → Bool) → Option A → Bool
missing_or f none = true
missing_or f (some a) = f a

missing_or_lem {ℓ} :
    {A : Type ℓ} (f : A → Bool) (o : Option A)
    → missing_or f o ≡ true
    → (o ≡ none) ⊎ ((a : A) × (o ≡ some a) × (f a ≡ true))
missing_or_lem f none h = inl refl
missing_or_lem f (some a) h = inr (a, refl, h)

abbrev mutual
  pub has_shape : Checker ℕ → Value ℕ → Bool
  has_shape any v = true
  has_shape string (str s) = true
  has_shape boolean (bool b) = true
  has_shape force_int (int n) = true
  has_shape force_uint (uint n) = true
  has_shape nothing null = true
  has_shape (one_of cs) v = has_one cs v
  has_shape (list c) (arr l) = all_of (has_shape c) (items_of l)
  has_shape (string_map c) (obj m) = all_of (λ (k, u). has_shape c u) (members_of m)
  has_shape (field_map fs) (obj m) = has_fields fs m
  has_shape c v = false

  pub has_one : Checkers ℕ → Value ℕ → Bool
  has_one no_more v = false
  has_one (either c cs) v = if has_shape c v then true else has_one cs v

  pub has_fields : FieldList ℕ → Members ℕ → Bool
  has_fields no_fields m = true
  has_fields (need k c fs) m = there (has_shape c) (field k m) && has_fields fs m
  has_fields (or_default k d c fs) m = there (has_shape c) (field k m) && has_fields fs m
  has_fields (or_omit k c fs) m = missing_or (has_shape c) (field k m) && has_fields fs m

mutual
  has_shape-Shaped : (c : Checker ℕ) (v : Value ℕ) → has_shape c v ≡ true → Shaped c v
  has_shape-Shaped any v h = tt
  has_shape-Shaped string (str s) h = (s, refl)
  has_shape-Shaped boolean (bool b) h = (b, refl)
  has_shape-Shaped force_int (int n) h = (n, refl)
  has_shape-Shaped force_uint (uint n) h = (n, refl)
  has_shape-Shaped nothing null h = refl
  has_shape-Shaped (one_of cs) v h = has_one-ShapedOne cs v h
  has_shape-Shaped (list c) (arr l) h =
      (l, refl, all_of-All (has_shape c) (Shaped c) (has_shape-Shaped c) (items_of l) h)
  has_shape-Shaped (string_map c) (obj m) h = (
    m,
    refl,
    all_of-All (λ (k, u). has_shape c u) (λ (k, u). Shaped c u) (λ (k, u) e. has_shape-Shaped c u e)
        (members_of m) h,
  )
  has_shape-Shaped (field_map fs) (obj m) h = (m, refl, has_fields-ShapedFields fs m h)
  has_shape-Shaped c v h = absurd (cc)

  has_one-ShapedOne : (cs : Checkers ℕ) (v : Value ℕ) → has_one cs v ≡ true → ShapedOne cs v
  has_one-ShapedOne no_more v h = absurd (cc)
  has_one-ShapedOne (either c cs) v h = elim (Bool-cases (has_shape c v)) [
    | inl e ↦ inl (has_shape-Shaped c v e)
    | inr e ↦ inr (has_one-ShapedOne cs v (ground arith))
  ]

  has_fields-ShapedFields :
      (fs : FieldList ℕ) (m : Members ℕ) → has_fields fs m ≡ true → ShapedFields fs m
  has_fields-ShapedFields no_fields m h = tt
  has_fields-ShapedFields (need k c fs) m h =
      let (here, rest) = both_true _ _ h in
      let (v, e, t) = there_lem (has_shape c) (field k m) here in
      ((v, e, has_shape-Shaped c v t), has_fields-ShapedFields fs m rest)
  has_fields-ShapedFields (or_default k d c fs) m h =
      let (here, rest) = both_true _ _ h in
      let (v, e, t) = there_lem (has_shape c) (field k m) here in
      ((v, e, has_shape-Shaped c v t), has_fields-ShapedFields fs m rest)
  has_fields-ShapedFields (or_omit k c fs) m h =
      let (here, rest) = both_true _ _ h in
      (
        elim (missing_or_lem (has_shape c) (field k m) here) [
          | inl e ↦ inl e
          | inr (v, e, t) ↦ inr (v, e, has_shape-Shaped c v t)
        ],
        has_fields-ShapedFields fs m rest,
      )

-- A value passes if it has the shape that the check gives.
abbrev pub strict : Checker ℕ → Value ℕ → Result ErrorValue (Value ℕ)
strict c v = if has_shape c v then ok v else err (other_error (codes "unexpected type"))

pub strict-Shaped : (c : Checker ℕ) (v u : Value ℕ) → strict c v ≡ ok u → Shaped c u
strict-Shaped c v u h = elim (Bool-cases (has_shape c v)) [
  | inl e ↦ has_shape-Shaped c u (ground arith)
  | inr e ↦ absurd (ground arith)
]

pub strict_same : (c : Checker ℕ) (v u : Value ℕ) → strict c v ≡ ok u → v ≡ u
strict_same c v u h = elim (Bool-cases (has_shape c v)) [
  | inl e ↦ let passed : strict c v ≡ ok v = rw e refl in cc
  | inr e ↦
      let refused : strict c v ≡ err (other_error (codes "unexpected type")) = rw e refl in
      absurd (cc)
]

abbrev compare_versions : Version → Version → ℤ
compare_versions v w =
    if version_leb v w then (if version_leb w v then pos 0 else negsuc 0) else pos 1

pub compare_versions_iff : (v w : Version) → not_positive (compare_versions v w) ≡ version_leb v w
compare_versions_iff v w = ground arith

abbrev pub version_number : Text → Result ErrorValue Version
version_number s =
    if s == codes "2.0" then ok two_dot_oh else err (other_error (codes "invalid version"))

abbrev pub juju : Juju bench
juju = record {
  coerce = strict;
  coerce-Shaped = strict-Shaped;
  compare = compare_versions;
  compare_iff = compare_versions_iff;
  version_text = λ v. itoa (pos v.major) ++ codes "." ++ itoa (pos v.minor);
  parse_major_minor = version_number;
}
