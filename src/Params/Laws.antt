-- ===== src/Params/Laws.antt =====
-- What the parameters hold after each of the calls, name by name.
use mathlib.Core.List.{concat-ne-nil}
use gomaasapi.Prelude.{
  ◌≡◌, ◌∙◌, ◌≢◌, Bool, List, [], ◌∷◌, ◌++◌, append_assoc, append-nil, arith, if◌then◌else◌, ◌==◌,
  nat_eq, list_eq, ℤ, pos, int_eq, All, All-append, if_elim,
}
use gomaasapi.Strings.{Text, codes}
use gomaasapi.Strings.Decimal.{itoa, itoa-ne-nil}
use gomaasapi.Params.{
  Values, values_of, set, add, maybe_add, maybe_add_int, maybe_add_bool, maybe_add_many,
}

pub values_of-add :
    (key name value : Text) (p : Values)
    → values_of key (add name value p)
      ≡ (if name == key then values_of key p ++ value ∷ [] else values_of key p)
unfolding values_of add
values_of-add key name value [] = ground arith
values_of-add key name value ((n, vs) ∷ p) = ground (arith, values_of-add key name value p)

pub values_of-set :
    (key name value : Text) (p : Values)
    → values_of key (set name value p) ≡ (if name == key then value ∷ [] else values_of key p)
unfolding values_of set
values_of-set key name value [] = ground arith
values_of-set key name value ((n, vs) ∷ p) = ground (arith, values_of-set key name value p)

-- The values that say something.
abbrev pub non_empty : List Text → List Text
non_empty [] = []
non_empty (v ∷ vs) = if v == [] then non_empty vs else v ∷ non_empty vs

values_of-maybe_add :
    (key name value : Text) (p : Values)
    → values_of key (maybe_add name value p)
      ≡ (if name == key then values_of key p ++ non_empty (value ∷ []) else values_of key p)
unfolding maybe_add
values_of-maybe_add key name value p =
    ground (arith, values_of-add key name value p, append-nil (values_of key p))

-- `MaybeAddMany` appends the non-empty values, in their order, to those of its name, and leaves
-- every other name alone.
values_of-maybe_add_many :
    (key name : Text) (values : List Text) (p : Values)
    → values_of key (maybe_add_many name values p)
      ≡ (if name == key then values_of key p ++ non_empty values else values_of key p)
unfolding maybe_add_many
values_of-maybe_add_many key name [] p = ground (arith, append-nil (values_of key p))
values_of-maybe_add_many key name (v ∷ vs) p =
    values_of-maybe_add_many key name vs (maybe_add name v p)
    ∙ rw (values_of-maybe_add key name v p) (
        ground (
          arith,
          append_assoc (values_of key p) (v ∷ []) (non_empty vs),
          append-nil (values_of key p),
        ))

-- No parameter has an empty value, and every name has a value.
abbrev pub IsFilled : Values → Type 0
IsFilled = All (λ (name, vs). (vs ≢ []) × All (λ v. v ≢ []) vs)

add-IsFilled :
    (name value : Text) (p : Values) → value ≢ [] → IsFilled p → IsFilled (add name value p)
unfolding add
add-IsFilled name value [] n h = (((λ e. cc), (n, tt)), tt)
add-IsFilled name value ((k, vs) ∷ p) n ((ne, h), hs) =
    if_elim IsFilled (k == name) _ _
      (λ _. ((concat-ne-nil value vs, All-append (λ v. v ≢ []) vs (value ∷ []) h (n, tt)), hs))
      (λ _. ((ne, h), add-IsFilled name value p n hs))

maybe_add-IsFilled :
    (name value : Text) (p : Values) → IsFilled p → IsFilled (maybe_add name value p)
unfolding maybe_add
maybe_add-IsFilled name value p h =
    if_elim IsFilled (value == []) _ _ (λ _. h) (λ e. add-IsFilled name value p (ground arith) h)

maybe_add_many-IsFilled :
    (name : Text) (values : List Text) (p : Values)
    → IsFilled p
    → IsFilled (maybe_add_many name values p)
unfolding maybe_add_many
maybe_add_many-IsFilled name [] p h = h
maybe_add_many-IsFilled name (v ∷ vs) p h =
    maybe_add_many-IsFilled name vs (maybe_add name v p) (maybe_add-IsFilled name v p h)

-- Each of the four calls, at any value, keeps the parameters filled: none of them adds an empty
-- value or a name without a value.
maybe_add_calls-IsFilled :
    (name value : Text) (n : ℤ) (b : Bool) (values : List Text) (p : Values)
    → IsFilled p
    → IsFilled (maybe_add name value p)
      × IsFilled (maybe_add_int name n p)
      × IsFilled (maybe_add_bool name b p)
      × IsFilled (maybe_add_many name values p)
unfolding maybe_add_int maybe_add_bool codes
maybe_add_calls-IsFilled name value n b values p h = (
  maybe_add-IsFilled name value p h,
  if_elim IsFilled (n == pos 0) _ _ (λ _. h) (λ _. add-IsFilled name (itoa n) p (itoa-ne-nil n) h),
  if_elim IsFilled b _ _ (λ _. add-IsFilled name (codes "true") p (λ e. cc) h) (λ _. h),
  maybe_add_many-IsFilled name values p h,
)
