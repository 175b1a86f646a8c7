-- ===== src/TestServer/Store.antt =====
-- Go maps, as lists of entries in the order in which `range` goes through them.
use gomaasapi.Prelude.{
  ◌≡◌, refl, ap, inl, inr, Bool, true, false, Option, none, some, List, [], ◌∷◌, if◌then◌else◌,
  ◌==◌, Eq, arith, Bool-cases, ==_refl,
}
use gomaasapi.Strings.{Text}

abbrev pub Store : Type 0 → Type 0
Store A = List (Text × A)

unfoldable pub find : {K A : Type 0} ⦃e : Eq K⦄ → K → List (K × A) → Option A
find key [] = none
find key ((k, a) ∷ m) = if k == key then some a else find key m

unfoldable pub store : {K A : Type 0} ⦃e : Eq K⦄ → K → A → List (K × A) → List (K × A)
store key a [] = (key, a) ∷ []
store key a ((k, b) ∷ m) =
    let rest = store key a m in if k == key then (k, a) ∷ m else (k, b) ∷ rest

-- `delete`, of every entry of the key
unfoldable pub remove : {K A : Type 0} ⦃e : Eq K⦄ → K → List (K × A) → List (K × A)
remove key [] = []
remove key ((k, b) ∷ m) = let rest = remove key m in if k == key then rest else (k, b) ∷ rest

abbrev pub is_there {ℓ} : {A : Type ℓ} → Option A → Bool
is_there none = false
is_there (some a) = true

abbrev pub keys : {K A : Type 0} → List (K × A) → List K
keys [] = []
keys ((k, a) ∷ m) = k ∷ keys m

abbrev pub has_key : {K : Type 0} ⦃e : Eq K⦄ → K → List K → Bool
has_key key [] = false
has_key key (k ∷ ks) = if k == key then true else has_key key ks

-- The keys after an entry is stored.
abbrev pub with_key : {K : Type 0} ⦃e : Eq K⦄ → K → List K → List K
with_key key [] = key ∷ []
with_key key (k ∷ ks) = let rest = with_key key ks in if k == key then k ∷ ks else k ∷ rest

pub keys-store :
    {K A : Type 0} ⦃e : Eq K⦄ (key : K) (a : A) (m : List (K × A))
    → keys (store key a m) ≡ with_key key (keys m)
unfolding store
keys-store key a [] = refl
keys-store key a ((k, b) ∷ m) = elim (Bool-cases (k == key)) [
  | inl e ↦ rw e refl
  | inr e ↦ rw e (ap (λ ks. k ∷ ks) (keys-store key a m))
]

-- An entry is there just when its key is among the keys.
pub is_there-find :
    {K A : Type 0} ⦃e : Eq K⦄ (key : K) (m : List (K × A))
    → is_there (find key m) ≡ has_key key (keys m)
unfolding find
is_there-find key [] = refl
is_there-find key ((k, a) ∷ m) = elim (Bool-cases (k == key)) [
  | inl e ↦ rw e refl
  | inr e ↦ rw e (is_there-find key m)
]

pub find-remove_same :
    {K A : Type 0} ⦃e : Eq K⦄ (key : K) (m : List (K × A)) → find key (remove key m) ≡ none
unfolding find remove
find-remove_same key [] = refl
find-remove_same key ((k, a) ∷ m) = elim (Bool-cases (k == key)) [
  | inl e ↦ rw e (find-remove_same key m)
  | inr e ↦ rw e (rw e (find-remove_same key m))
]

pub find-remove_other :
    {K A : Type 0} ⦃e : Eq K⦄ (key other : K) (m : List (K × A))
    → (key == other) ≡ false
    → find other (remove key m) ≡ find other m
unfolding find remove
find-remove_other key other [] h = refl
find-remove_other key other ((k, a) ∷ m) h = elim (Bool-cases (k == key)) [
  | inl e ↦
      let found : k ≡ key = ground arith in
      let distinct : (k == other) ≡ false = rw found h in
      rw (e, distinct) (find-remove_other key other m h)
  | inr e ↦ elim (Bool-cases (k == other)) [
    | inl f ↦ rw e (rw f refl)
    | inr f ↦ rw e (rw f (find-remove_other key other m h))
  ]
]

pub find-store_same :
    {K A : Type 0} ⦃e : Eq K⦄ (key : K) (a : A) (m : List (K × A))
    → find key (store key a m) ≡ some a
unfolding find store
find-store_same key a [] = rw (==_refl key) refl
find-store_same key a ((k, b) ∷ m) = elim (Bool-cases (k == key)) [
  | inl e ↦ rw e (rw e refl)
  | inr e ↦ rw e (rw e (find-store_same key a m))
]

pub find-store_other :
    {K A : Type 0} ⦃e : Eq K⦄ (key other : K) (a : A) (m : List (K × A))
    → (key == other) ≡ false
    → find other (store key a m) ≡ find other m
unfolding find store
find-store_other key other a [] h = rw h refl
find-store_other key other a ((k, b) ∷ m) h = elim (Bool-cases (k == key)) [
  | inl e ↦
      let found : k ≡ key = ground arith in
      let distinct : (k == other) ≡ false = rw found h in rw e (rw distinct refl)
  | inr e ↦ elim (Bool-cases (k == other)) [
    | inl f ↦ rw e (rw f refl)
    | inr f ↦ rw e (rw f (find-store_other key other a m h))
  ]
]
