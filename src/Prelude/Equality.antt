-- ===== src/Prelude/Equality.antt =====
-- Go's `==` on the types whose values the program compares. The instances stay shut in proofs,
-- where a split on `a == b` yields the equation or its negation.
use Prim.Native.Nat.{ℕ}
use mathlib.Core.Path.{◌≡◌, refl, ap₂}
use mathlib.Core.Logic.{◌↔◌, ite, dite}
use mathlib.Core.Bool.{Bool, true, false}
use mathlib.Core.List.{List, [], ◌∷◌, nil≢cons, cons-ne-nil, head-eq_of_cons-eq, tail-eq_of_cons-eq}
use native.Mathlib.Decide.{ℕ_discrete}
use native.Mathlib.Omega.{arith}

pub record Eq {ℓ} (A : Type ℓ) : Type ℓ where
  pub dec : Discrete A

module _ {ℓ} {A : Type ℓ} ⦃e : Eq A⦄ where
  infix 50 ◌==◌
  abbrev pub ◌==◌ : A → A → Bool
  a == b = ite (e.dec a b) true false

  pub ==_iff : (a b : A) → ((a == b) ≡ true) ↔ (a ≡ b)
  ==_iff a b = ground arith

  pub ==_refl : (a : A) → (a == a) ≡ true
  ==_refl a = ground arith

  list_dec : Discrete (List A)
  list_dec [] [] = yes refl
  list_dec [] (y ∷ ys) = no (λ p. nil≢cons p)
  list_dec (x ∷ xs) [] = no (cons-ne-nil x xs)
  list_dec (x ∷ xs) (y ∷ ys) =
      dite (e.dec x y)
        (λ p.
          dite (list_dec xs ys) (λ q. yes (ap₂ ◌∷◌ p q)) (λ n. no (λ r. n (tail-eq_of_cons-eq r))))
        (λ n. no (λ r. n (head-eq_of_cons-eq r)))

  instance unfoldable pub list_eq : Eq (List A)
  unfolding list_dec
  list_eq = record { dec = list_dec }

instance unfoldable pub nat_eq : Eq ℕ
unfolding ℕ_discrete
nat_eq = record { dec = ℕ_discrete }

-- `contains xs a`: some element equals `a`.
module _ {ℓ} {A : Type ℓ} ⦃e : Eq A⦄ where
  abbrev pub contains : List A → A → Bool
  contains [] a = false
  contains (x ∷ xs) a = ite (e.dec x a) true (contains xs a)
