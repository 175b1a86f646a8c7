-- ===== src/Reading/Items.antt =====
-- Lists of objects: all are read, in order, or the first that cannot be read gives the error.
use gomaasapi.Prelude.{
  ◌≡◌, refl, ◌⊎◌, inl, inr, ℕ, suc, ◌+◌, none, List, [], ◌∷◌, ◌++◌, arith, pos, ok, err, length,
}
use gomaasapi.Strings.{Text, codes}
use gomaasapi.Strings.Decimal.{itoa}
use gomaasapi.Value.{Value, obj, Members}
use gomaasapi.Http.{Platform}
use gomaasapi.Schema.{Juju}
use gomaasapi.Reading.{
  Fault, returned, panicked, ◌>>=◌, rewrap, Style, Read, map_of, read_item, read_items,
  unexpected_item,
}

shift : (i n : ℕ) → i + suc n ≡ suc i + n
shift i n = omega arith

none_before : (i : ℕ) → i + 0 ≡ i
none_before i = omega arith

module _ (P : Platform) (J : Juju P) {A : Type 0} (style : Style) (name : Text) where
  open P use {Err, Float}

  -- The values are maps, which the function reads as these objects, one for each.
  abbrev pub AllRead : (Members Float → Read P A) → List (Value Float) → List A → Type 0
  AllRead f [] [] = Unit
  AllRead f (v ∷ vs) (a ∷ objects) =
      ((m : Members Float) × (v ≡ obj m) × (f m ≡ ok a)) × AllRead f vs objects
  AllRead f vs objects = ⊥

  -- The error of an element has its index.
  abbrev pub indexed : ℕ → Read P A → Read P A
  indexed i r = rewrap (λ e. P.errors.annotate e (name ++ codes " " ++ itoa (pos i))) r

  -- What the first value that is not read gives: an error with its index, or a panic.
  abbrev pub ItemFault : (Members Float → Read P A) → ℕ → Value Float → Fault Err → Type 0
  ItemFault f i v e =
      ((map_of v ≡ none) × (e ≡ returned (unexpected_item P J style name i v)))
      ⊎ ((m : Members Float) × (v ≡ obj m) × (indexed i (f m) ≡ err e))

  read_item_cases :
      (f : Members Float → Read P A) (i : ℕ) (v : Value Float)
      → ((a : A) × (read_item P J style name f i v ≡ ok a)
          × ((m : Members Float) × (v ≡ obj m) × (f m ≡ ok a)))
        ⊎ ((e : Fault Err) × (read_item P J style name f i v ≡ err e) × ItemFault f i v e)
  unfolding read_item
  read_item_cases f i (obj m) = of (f m) refl
    where
      of :
          (r : Read P A)
          → f m ≡ r
          → ((a : A) × (indexed i r ≡ ok a)
              × ((m' : Members Float) × (obj m ≡ obj m') × (f m' ≡ ok a)))
            ⊎ ((e : Fault Err) × (indexed i r ≡ err e) × ItemFault f i (obj m) e)
      of (ok a) h = inl (a, refl, (m, refl, h))
      of (err (returned g)) h = inr (_, refl, inr (m, refl, rw h))
      of (err panicked) h = inr (_, refl, inr (m, refl, rw h))
  read_item_cases f i v = inr (_, refl, inl (refl, refl))

  -- The list is read whole, in order, one object for each element, or the first element that is no
  -- map, or that the function does not read, gives the error, with its index; nothing behind it
  -- counts.
  pub read_items_lem :
      (f : Members Float → Read P A) (i : ℕ) (vs : List (Value Float))
      → ((objects : List A) × (read_items P J style name f i vs ≡ ok objects)
          × AllRead f vs objects)
        ⊎ ((before after : List (Value Float)) × (v : Value Float) × (objects : List A) × (e : Fault
              Err)
            × (vs ≡ before ++ v ∷ after)
            × AllRead f before objects
            × (read_items P J style name f i vs ≡ err e)
            × ItemFault f (i + length before) v e)
  unfolding read_items
  read_items_lem f i [] = inl ([], refl, tt)
  read_items_lem f i (v ∷ vs) = elim (read_item_cases f i v) [
    | inr (e, h, fault) ↦ inr ([], vs, v, [], e, refl, tt, rw h, rw (none_before i) fault)
    | inl (a, h, read) ↦ elim (read_items_lem f (suc i) vs) [
      | inl (objects, k, all) ↦ inl (a ∷ objects, rw (h, ◌>>=◌) (rw k), (read, all))
      | inr (before, after, u, objects, e, p, all, k, fault) ↦ inr (
        v ∷ before,
        after,
        u,
        a ∷ objects,
        e,
        rw p,
        (read, all),
        rw (h, ◌>>=◌) (rw k),
        rw (shift i (length before)) fault,
      )
    ]
  ]
