-- ===== src/TestServer/Numbered.antt =====
-- Objects under identifiers that are given out in order.
pub mod Members
use gomaasapi.Prelude.{
  ℕ, zero, suc, ◌+◌, ◌-◌, ◌<◌, ◌≤◌, ◌≡◌, ◌≢◌, refl, ◌∙◌, false, ◌||◌, Option, none, some, List, [],
  ◌∷◌, length, ◌==◌, nat_eq, All, All-mono, Bool-cases, inl, inr, arith,
}
use gomaasapi.TestServer.Store.{
  find, store, remove, keys, has_key, with_key, keys-store, find-store_other,
}

with_found : {A : Type 0} → Option A → List A → List A
with_found none l = l
with_found (some a) l = a ∷ l

-- The objects with the identifiers from `i`, in this many rounds: the loops that go through the
-- identifiers and pass over those that are not there
unfoldable pub in_order : {A : Type 0} → ℕ → ℕ → List (ℕ × A) → List A
unfolding with_found
in_order zero i m = []
in_order (suc rounds) i m = with_found (find i m) (in_order rounds (i + 1) m)

abbrev pub Distinct : List ℕ → Type 0
Distinct [] = Unit
Distinct (k ∷ ks) = (has_key k ks ≡ false) × Distinct ks

-- The objects carry their identifiers, which are from 1 to below the next one.
pub record IsNumbered {A : Type 0} (id_of : A → ℕ) (next : ℕ) (m : List (ℕ × A)) : Type 0 where
  pub distinct : Distinct (keys m)
  pub each : All (λ (k, a). (1 ≤ k) × (k < next) × (id_of a ≡ k)) m

has_key-with_key :
    (k key : ℕ) (ks : List ℕ) → has_key k (with_key key ks) ≡ (has_key k ks || (key == k))
has_key-with_key k key [] = ground arith
has_key-with_key k key (j ∷ ks) = ground (arith, has_key-with_key k key ks)

Distinct-with_key : (key : ℕ) (ks : List ℕ) → Distinct ks → Distinct (with_key key ks)
Distinct-with_key key [] d = (refl, tt)
Distinct-with_key key (k ∷ ks) (h, d) = elim (Bool-cases (k == key)) [
  | inl e ↦ rw e (h, d)
  | inr e ↦ rw e (ground (arith, has_key-with_key k key ks), Distinct-with_key key ks d)
]

module _ {A : Type 0} where
  store-All :
      (P : ℕ × A → Type 0) (key : ℕ) (a : A) (m : List (ℕ × A))
      → P (key, a)
      → All P m
      → All P (store key a m)
  unfolding store
  store-All P key a [] p h = (p, tt)
  store-All P key a ((k, b) ∷ m) p (q, h) = elim (Bool-cases (k == key)) [
    | inl e ↦ let f : key ≡ k = ground arith in rw e (rw (← f) p, h)
    | inr e ↦ rw e (q, store-All P key a m p h)
  ]

  remove-All : (P : ℕ × A → Type 0) (key : ℕ) (m : List (ℕ × A)) → All P m → All P (remove key m)
  unfolding remove
  remove-All P key [] h = tt
  remove-All P key ((k, b) ∷ m) (q, h) = elim (Bool-cases (k == key)) [
    | inl e ↦ rw e (remove-All P key m h)
    | inr e ↦ rw e (q, remove-All P key m h)
  ]

  pub find-All :
      (P : ℕ × A → Type 0) (key : ℕ) (a : A) (m : List (ℕ × A))
      → find key m ≡ some a
      → All P m
      → P (key, a)
  unfolding find
  find-All P key a [] e h = absurd (ground arith)
  find-All P key a ((k, b) ∷ m) e (q, h) = elim (Bool-cases (k == key)) [
    | inl f ↦
        let g : k ≡ key = ground arith in let i : b ≡ a = ground arith in rw (← g) (rw (← i) q)
    | inr f ↦ find-All P key a m (ground arith) h
  ]

  has_key-remove :
      (k key : ℕ) (m : List (ℕ × A))
      → has_key k (keys m) ≡ false
      → has_key k (keys (remove key m)) ≡ false
  unfolding remove
  has_key-remove k key [] h = refl
  has_key-remove k key ((j, a) ∷ m) h = ground (arith, has_key-remove k key m)

  Distinct-remove :
      (key : ℕ) (m : List (ℕ × A)) → Distinct (keys m) → Distinct (keys (remove key m))
  unfolding remove
  Distinct-remove key [] d = tt
  Distinct-remove key ((k, a) ∷ m) (h, d) = elim (Bool-cases (k == key)) [
    | inl e ↦ rw e (Distinct-remove key m d)
    | inr e ↦ rw e (has_key-remove k key m h, Distinct-remove key m d)
  ]

  module _ (id_of : A → ℕ) (next : ℕ) (m : List (ℕ × A)) (n : IsNumbered id_of next m) where
    pub store-IsNumbered :
        (key next' : ℕ) (a : A)
        → 1 ≤ key
        → key < next'
        → next ≤ next'
        → id_of a ≡ key
        → IsNumbered id_of next' (store key a m)
    store-IsNumbered key next' a h k l e = record {
      distinct = rw (keys-store key a m) (Distinct-with_key key (keys m) n.distinct);
      each =
          store-All (λ (k, a). (1 ≤ k) × (k < next') × (id_of a ≡ k)) key a m (h, k, e)
            (All-mono (λ (k, a). (1 ≤ k) × (k < next) × (id_of a ≡ k))
              (λ (k, a). (1 ≤ k) × (k < next') × (id_of a ≡ k))
              (λ (k, a) (p, q, r). (p, omega arith, r)) m n.each);
    }

    pub remove-IsNumbered : (key : ℕ) → IsNumbered id_of next (remove key m)
    remove-IsNumbered key = record {
      distinct = Distinct-remove key m n.distinct;
      each = remove-All (λ (k, a). (1 ≤ k) × (k < next) × (id_of a ≡ k)) key m n.each;
    }

length-in_order-nil : (A : Type 0) (rounds i : ℕ) → length (in_order {A = A} rounds i []) ≡ 0
unfolding in_order find
length-in_order-nil A zero i = refl
length-in_order-nil A (suc rounds) i = length-in_order-nil A rounds (i + 1)

-- The walk through the identifiers meets each object once.
module _ {A : Type 0} where
  length-with_found :
      (o : Option A) (l m : List A)
      → length l ≡ 1 + length m
      → length (with_found o l) ≡ 1 + length (with_found o m)
  unfolding with_found
  length-with_found none l m h = h
  length-with_found (some a) l m h = omega arith

  find-other : (i k : ℕ) (a : A) (m : List (ℕ × A)) → k ≢ i → find i ((k, a) ∷ m) ≡ find i m
  unfolding find
  find-other i k a m h = ground arith

  find-none : (k : ℕ) (m : List (ℕ × A)) → has_key k (keys m) ≡ false → find k m ≡ none
  unfolding find
  find-none k [] h = refl
  find-none k ((j, a) ∷ m) h = ground (arith, find-none k m)

  in_order-above :
      (rounds i k : ℕ) (a : A) (m : List (ℕ × A))
      → k < i
      → in_order rounds i ((k, a) ∷ m) ≡ in_order rounds i m
  unfolding in_order
  in_order-above zero i k a m h = refl
  in_order-above (suc rounds) i k a m h =
      rw (find-other i k a m (λ e. absurd (omega arith)))
        (rw (in_order-above rounds (i + 1) k a m (omega arith)) refl)

  length-in_order-cons :
      (rounds i k : ℕ) (a : A) (m : List (ℕ × A))
      → find k m ≡ none
      → i ≤ k
      → k < i + rounds
      → length (in_order rounds i ((k, a) ∷ m)) ≡ 1 + length (in_order rounds i m)
  unfolding in_order
  length-in_order-cons zero i k a m e h l = absurd (omega arith)
  length-in_order-cons (suc rounds) i k a m e h l = elim (Bool-cases (k == i)) [
    | inl f ↦
        let g : k ≡ i = ground arith in
        let found : find i ((k, a) ∷ m) ≡ some a = unfold find in rw f refl in
        let n : find i m ≡ none = rw (← g) e in
        rw (found, n, in_order-above rounds (i + 1) k a m (omega arith)) (omega arith)
    | inr f ↦
        let ih = length-in_order-cons rounds (i + 1) k a m e (ground arith) (omega arith) in
        rw (find-other i k a m (ground arith)) (length-with_found (find i m) _ _ ih)
  ]

  pub length-in_order :
      (next : ℕ) (m : List (ℕ × A))
      → Distinct (keys m)
      → All (λ (k, a). (1 ≤ k) × (k < next)) m
      → length (in_order (next - 1) 1 m) ≡ length m
  length-in_order next [] d h = length-in_order-nil A (next - 1) 1
  length-in_order next ((k, a) ∷ m) (u, d) ((l, r), h) =
      length-in_order-cons (next - 1) 1 k a m (find-none k m u) l (omega arith)
      ∙ omega (arith, length-in_order next m d h)

  pub in_order-store :
      (rounds i key : ℕ) (a : A) (m : List (ℕ × A))
      → key < i
      → in_order rounds i (store key a m) ≡ in_order rounds i m
  unfolding in_order
  in_order-store zero i key a m h = refl
  in_order-store (suc rounds) i key a m h =
      let other : (key == i) ≡ false = ground arith in
      rw (find-store_other key i a m other, in_order-store rounds (i + 1) key a m (omega arith))
        refl

  pub in_order-found :
      (rounds i : ℕ) (a : A) (m : List (ℕ × A))
      → find i m ≡ some a
      → in_order (suc rounds) i m ≡ a ∷ in_order rounds (i + 1) m
  unfolding in_order
  in_order-found rounds i a m e = rw e refl

  pub in_order-absent :
      (rounds i : ℕ) (m : List (ℕ × A))
      → find i m ≡ none
      → in_order (suc rounds) i m ≡ in_order rounds (i + 1) m
  unfolding in_order
  in_order-absent rounds i m e = rw e refl
