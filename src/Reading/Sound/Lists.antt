-- ===== src/Reading/Sound/Lists.antt =====
-- Checks, lists of objects and the choice of a function, without panics.
use gomaasapi.Prelude.{
  ◌≡◌, refl, sym, ◌∙◌, inl, inr, ℕ, suc, List, [], ◌∷◌, nat_eq, list_eq, Result, ok, err, All,
  Bool-cases,
}
use gomaasapi.Strings.{Text}
use gomaasapi.Value.{Value, obj, Members}
use gomaasapi.Http.{Platform}
use gomaasapi.Schema.{Checker, any, list, string_map, field_map, FieldList, Juju}
use gomaasapi.Reading.{◌>>=◌, Style, Read, to_read, assert_map, checked}
use gomaasapi.Reading.{
  Funcs, find_func, select, read_items, read_item, read_all, select_and_read_all, select_and_read,
}
use gomaasapi.Versions.{Version, version_beq}
use gomaasapi.Reading.Choice.{select_lem}
use gomaasapi.Reading.Sound.{
  Checked, Safe, Safe-ok, Safe-returned, NoPanic, Safe-bind, Safe-rewrap, NoPanic-bind,
  NoPanic-list, NoPanic-map,
}

ok_unique : {E A : Type 0} {r : Result E A} {a b : A} → r ≡ ok a → r ≡ ok b → a ≡ b
ok_unique h k = let same = sym h ∙ k in cc

module _ (P : Platform) (J : Juju P) where
  open P use {Err, Float}

  to_read-Safe :
      (c : Checker Float) (v : Value Float)
      → Safe P (λ u. J.coerce c v ≡ ok u) (to_read P (J.coerce c v))
  to_read-Safe c v = from (J.coerce c v) refl
    where
      from :
          (r : Result Err (Value Float))
          → J.coerce c v ≡ r
          → Safe P (λ u. J.coerce c v ≡ ok u) (to_read P r)
      from (ok u) e = Safe-ok P _ u e
      from (err g) e = Safe-returned P _ g

  checked-Safe :
      (style : Style) (message : Text) (c : Checker Float) (v : Value Float)
      → Safe P (λ u. J.coerce c v ≡ ok u) (checked P J style message c v)
  unfolding checked
  checked-Safe style message c v = Safe-rewrap P _ _ _ (to_read-Safe c v)

  -- The check of an object by its fields, and what follows it.
  pub given_step :
      {B : Type 0} (style : Style) (message : Text) (fs : FieldList Float) (v : Value Float)
      (f : Members Float → Read P B)
      → ((m : Members Float)
          → J.coerce (field_map fs) v ≡ ok (obj m)
          → Checked fs m
          → NoPanic P (f m))
      → NoPanic P
          (checked P J style message (field_map fs) v >>= λ coerced. assert_map P coerced >>= f)
  given_step style message fs v f k =
      Safe-bind P (λ u. J.coerce (field_map fs) v ≡ ok u) _ _ _
        (checked-Safe style message (field_map fs) v)
        (λ u given.
          let (m, e, h) = J.coerce-Shaped (field_map fs) v u given in
          rw e (k m (rw (sym e) given) (record { shape = h })))

  pub fields_step :
      {B : Type 0} (style : Style) (message : Text) (fs : FieldList Float) (v : Value Float)
      (f : Members Float → Read P B)
      → ((m : Members Float) → Checked fs m → NoPanic P (f m))
      → NoPanic P
          (checked P J style message (field_map fs) v >>= λ coerced. assert_map P coerced >>= f)
  fields_step style message fs v f k = given_step style message fs v f (λ m e h. k m h)

  module _ {A : Type 0} (style : Style) (name : Text) where
    NoPanic-item :
        (f : Members Float → Read P A) (i : ℕ) (v : Value Float)
        → ((m : Members Float) → NoPanic P (f m))
        → NoPanic P (read_item P J style name f i v)
    unfolding read_item
    NoPanic-item f i (obj m) h = Safe-rewrap P _ _ _ (h m)
    NoPanic-item f i v h = Safe-returned P _ _

    pub NoPanic-items :
        (f : Members Float → Read P A) (i : ℕ) (vs : List (Value Float))
        → ((m : Members Float) → NoPanic P (f m))
        → NoPanic P (read_items P J style name f i vs)
    unfolding read_items
    NoPanic-items f i [] h = Safe-ok P _ _ tt
    NoPanic-items f i (v ∷ vs) h =
        NoPanic-bind P _ _ (NoPanic-item f i v h)
          (λ a. NoPanic-bind P _ _ (NoPanic-items f (suc i) vs h) (λ rest. Safe-ok P _ _ tt))

    -- Every function of the table reads without a panic.
    abbrev pub AllSafe : Funcs P A → Type 0
    AllSafe funcs = All (λ (v, f). (m : Members Float) → NoPanic P (f m)) funcs

    find_func-AllSafe :
        (v : Version) (f : Members Float → Read P A) (funcs : Funcs P A)
        → find_func P v funcs ≡ ok f
        → AllSafe funcs
        → (m : Members Float) → NoPanic P (f m)
    unfolding find_func
    find_func-AllSafe v f [] e h = absurd (cc)
    find_func-AllSafe v f ((w, g) ∷ funcs) e (h, hs) = elim (Bool-cases (version_beq w v)) [
      | inl same ↦ λ m. rw (sym (ok_unique {a = g} (rw same refl) e)) (h m)
      | inr other ↦ find_func-AllSafe v f funcs (sym (rw other refl) ∙ e) hs
    ]

    select-Safe :
        (c : Version) (funcs : Funcs P A)
        → AllSafe funcs
        → Safe P (λ f. (m : Members Float) → NoPanic P (f m)) (select P J style name c funcs)
    select-Safe c funcs h = elim (select_lem P J style name c funcs) [
      | inl (e, above) ↦ rw e (Safe-returned P _ _)
      | inr (v, f, e, found, l, highest) ↦
          rw e (Safe-ok P _ f (find_func-AllSafe v f funcs found h))
    ]

    -- Where every function of the table reads an object without a panic, so are lists of objects, and
    -- single objects, read from any answer and at any version.
    pub read-NoPanic :
        (funcs : Funcs P A) (c : Version) (source : Value Float)
        → AllSafe funcs
        → NoPanic P (read_all P J style name funcs c source)
          × NoPanic P (select_and_read_all P J style name funcs c source)
          × NoPanic P (select_and_read P J style name funcs c source)
    unfolding read_all select_and_read_all select_and_read
    read-NoPanic funcs c source h = (
      Safe-bind P _ _ _ _ (checked-Safe style _ (list (string_map any)) source) (λ u given.
          NoPanic-bind P _ _ (NoPanic-list P (string_map any) u (J.coerce-Shaped _ source u given))
            (λ valid.
              Safe-bind P _ _ _ _ (select-Safe c funcs h) (λ f k. NoPanic-items f 0 valid k))),
      Safe-bind P _ _ _ _ (Safe-rewrap P _ _ _ (select-Safe c funcs h)) (λ f k.
          Safe-bind P _ _ _ _ (checked-Safe style _ (list (string_map any)) source) (λ u given.
            NoPanic-bind P _ _
              (NoPanic-list P (string_map any) u (J.coerce-Shaped _ source u given))
              (λ valid. NoPanic-items f 0 valid k))),
      Safe-bind P _ _ _ _ (Safe-rewrap P _ _ _ (select-Safe c funcs h)) (λ f k.
          Safe-bind P _ _ _ _ (checked-Safe style _ (string_map any) source) (λ u given.
            NoPanic-bind P _ _ (NoPanic-map P any u (J.coerce-Shaped _ source u given))
              (λ valid. k valid))),
    )
