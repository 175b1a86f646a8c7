-- ===== src/Reading/Sound.antt =====
-- Reading without panics: the type assertions after a check are on fields that the check is for.
pub mod Steps
pub mod Lists
use mathlib.Core.Option
use gomaasapi.Prelude.{
  ◌≡◌, refl, sym, ◌∙◌, ◌⊎◌, inl, inr, ℕ, suc, Bool, true, false, Option, none, some, List, [], ◌∷◌,
  if◌then◌else◌, ◌==◌, nat_eq, list_eq, arith, ℤ, Result, ok, err, All, Bool-cases, Option-cases,
}
use gomaasapi.Strings.{Text, codes}
use gomaasapi.Value.{Value, null, str, obj, arr, Members, field, items_of, members_of}
use gomaasapi.Http.{Platform}
use gomaasapi.Schema.{
  Checker, any, string, boolean, force_int, force_uint, list, string_map, field_map, nil_or,
  FieldList, no_fields, need, or_default, or_omit, Shaped, ShapedFields, Juju,
}
use gomaasapi.Reading.{
  Fault, returned, panicked, ◌>>=◌, rewrap, Style, at, or_null, Read, to_read, assert_string,
  assert_int, assert_uint, assert_bool, assert_map, assert_list, assert_strings, assert_entries,
  convert_to_string_slice, convert_to_string_map, checked,
}

-- What a field list asks of the value at a key, unless it may be left out.
abbrev pub asks : {F : Type 0} → Text → FieldList F → Option (Checker F)
asks key no_fields = none
asks key (need k c fs) = if k == key then some c else asks key fs
asks key (or_default k d c fs) = if k == key then some c else asks key fs
asks key (or_omit k c fs) = if k == key then none else asks key fs

here_or_later :
    {F : Type 0} (key k : Text) (c d : Checker F) (fs : FieldList F) (m : Members F) (v : Value F)
    → (if k == key then some c else asks key fs) ≡ some d
    → field k m ≡ some v
    → Shaped c v
    → (asks key fs ≡ some d → Shaped d (at key m))
    → Shaped d (at key m)
unfolding at
here_or_later key k c d fs m v h e s later = elim (Bool-cases (k == key)) [
  | inl same ↦
      let found : k ≡ key = ground arith in
      let asked : some c ≡ some d = sym (rw (same, if◌then◌else◌) refl) ∙ h in
      let this : c ≡ d = cc in rw (sym found, e) (rw (sym this) s)
  | inr other ↦ later (ground arith)
]

pub at-Shaped :
    {F : Type 0} (key : Text) (c : Checker F) (fs : FieldList F) (m : Members F)
    → asks key fs ≡ some c
    → ShapedFields fs m
    → Shaped c (at key m)
at-Shaped key c no_fields m h s = absurd (cc)
at-Shaped key c (need k d fs) m h ((v, e, t), s) =
    here_or_later key k d c fs m v h e t (λ later. at-Shaped key c fs m later s)
at-Shaped key c (or_default k d' d fs) m h ((v, e, t), s) =
    here_or_later key k d c fs m v h e t (λ later. at-Shaped key c fs m later s)
at-Shaped key c (or_omit k d fs) m h (t, s) = elim (Bool-cases (k == key)) [
  | inl same ↦ absurd (ground arith)
  | inr other ↦ at-Shaped key c fs m (ground arith) s
]

-- The map that a check by its fields gave.
pub record Checked {F : Type 0} (fs : FieldList F) (m : Members F) : Type 0 where
  pub shape : ShapedFields fs m

module _ (P : Platform) where
  open P use {Err, Float}

  -- A result is not a panic, and where it is a value, the value has the property.
  unfoldable pub Safe : {A : Type 0} → (A → Type 0) → Read P A → Type 0
  Safe Q (ok a) = Q a
  Safe Q (err (returned e)) = Unit
  Safe Q (err panicked) = ⊥

  -- A result is not a panic.
  abbrev pub NoPanic : {A : Type 0} → Read P A → Type 0
  NoPanic r = Safe (λ a. Unit) r

  pub Safe-ok : {A : Type 0} (Q : A → Type 0) (a : A) → Q a → Safe Q (ok a)
  unfolding Safe
  Safe-ok Q a h = h

  pub Safe-returned : {A : Type 0} (Q : A → Type 0) (e : Err) → Safe Q (err (returned e))
  unfolding Safe
  Safe-returned Q e = tt

  pub Safe-bind :
      {A B : Type 0} (Q : A → Type 0) (R : B → Type 0) (m : Read P A) (f : A → Read P B)
      → Safe Q m
      → ((a : A) → Q a → Safe R (f a))
      → Safe R (m >>= f)
  unfolding Safe
  Safe-bind Q R (ok a) f h k = k a h
  Safe-bind Q R (err (returned e)) f h k = tt
  Safe-bind Q R (err panicked) f h k = absurd h

  pub Safe-rewrap :
      {A : Type 0} (Q : A → Type 0) (f : Err → Err) (m : Read P A) → Safe Q m → Safe Q (rewrap f m)
  unfolding Safe
  Safe-rewrap Q f (ok a) h = h
  Safe-rewrap Q f (err (returned e)) h = tt
  Safe-rewrap Q f (err panicked) h = absurd h

  pub NoPanic-bind :
      {A B : Type 0} (m : Read P A) (f : A → Read P B)
      → NoPanic m
      → ((a : A) → NoPanic (f a))
      → NoPanic (m >>= f)
  NoPanic-bind m f h k = Safe-bind _ _ m f h (λ a q. k a)

  pub rewrap_step :
      {A B : Type 0} (g : Err → Err) (m : Read P A) (f : A → Read P B)
      → NoPanic m
      → ((a : A) → NoPanic (f a))
      → NoPanic (rewrap g m >>= f)
  rewrap_step g m f h k = NoPanic-bind _ f (Safe-rewrap _ g m h) k

  pub no_panic : {A : Type 0} (a : A) → NoPanic (ok a)
  no_panic a = Safe-ok _ a tt

  pub NoPanic-string : (v : Value Float) → Shaped string v → NoPanic (assert_string P v)
  unfolding Safe
  NoPanic-string v (s, e) = rw e tt

  pub NoPanic-int : (v : Value Float) → Shaped force_int v → NoPanic (assert_int P v)
  unfolding Safe
  NoPanic-int v (n, e) = rw e tt

  pub NoPanic-uint : (v : Value Float) → Shaped force_uint v → NoPanic (assert_uint P v)
  unfolding Safe
  NoPanic-uint v (n, e) = rw e tt

  pub NoPanic-bool : (v : Value Float) → Shaped boolean v → NoPanic (assert_bool P v)
  unfolding Safe
  NoPanic-bool v (b, e) = rw e tt

  pub NoPanic-map :
      (c : Checker Float) (v : Value Float) → Shaped (string_map c) v → NoPanic (assert_map P v)
  unfolding Safe
  NoPanic-map c v (m, e, h) = rw e tt

  pub NoPanic-list :
      (c : Checker Float) (v : Value Float) → Shaped (list c) v → NoPanic (assert_list P v)
  unfolding Safe
  NoPanic-list c v (l, e, h) = rw e tt

  NoPanic-strings :
      (vs : List (Value Float)) → All (Shaped string) vs → NoPanic (assert_strings P vs)
  unfolding assert_strings Safe
  NoPanic-strings [] h = tt
  NoPanic-strings (v ∷ vs) (s, h) =
      NoPanic-bind _ _ (NoPanic-string v s)
        (λ t. NoPanic-bind _ _ (NoPanic-strings vs h) (λ rest. tt))

  NoPanic-entries :
      (m : List (Text × Value Float))
      → All (λ (k, v). Shaped string v) m
      → NoPanic (assert_entries P m)
  unfolding assert_entries Safe
  NoPanic-entries [] h = tt
  NoPanic-entries ((k, v) ∷ m) (s, h) =
      NoPanic-bind _ _ (NoPanic-string v s)
        (λ t. NoPanic-bind _ _ (NoPanic-entries m h) (λ rest. tt))

  pub NoPanic-slice :
      (v : Value Float) → Shaped (list string) v → NoPanic (convert_to_string_slice P v)
  unfolding convert_to_string_slice Safe
  NoPanic-slice v (l, e, h) = rw e (NoPanic-strings (items_of l) h)

  pub NoPanic-slice_or_nil :
      (v : Value Float) → Shaped (nil_or (list string)) v → NoPanic (convert_to_string_slice P v)
  unfolding convert_to_string_slice Safe
  NoPanic-slice_or_nil v (inl e) = rw e tt
  NoPanic-slice_or_nil v (inr (inl h)) = NoPanic-slice v h
  NoPanic-slice_or_nil v (inr (inr h)) = absurd h

  pub NoPanic-string_map :
      (v : Value Float) → Shaped (string_map string) v → NoPanic (convert_to_string_map P v)
  unfolding convert_to_string_map Safe
  NoPanic-string_map v (m, e, h) = rw e (NoPanic-entries (members_of m) h)
