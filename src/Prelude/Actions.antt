-- ===== src/Prelude/Actions.antt =====
-- The pair `(value, error)` that Go functions return, as a result; and actions on a world.
use mathlib.Core.Path.{◌≡◌}

pub data Result {ℓ κ} (E : Type ℓ) (A : Type κ) : Type (ℓ ⊔ κ) where
  ok : A → Result E A
  err : E → Result E A

-- A function that may fail and that acts on a world.
abbrev pub Action {ℓ κ} : Type 0 → Type ℓ → Type κ → Type (ℓ ⊔ κ)
Action W E A = W → Result E A × W

infixl 5 ◌>>=◌ ◌>>◌
abbrev pub ◌>>=◌ {ℓ κ ι} :
    {W : Type 0} {E : Type ℓ} {A : Type κ} {B : Type ι}
    → Action W E A
    → (A → Action W E B)
    → Action W E B
◌>>=◌ m f w = elim ((m w).0) [ ok a ↦ f a (m w).1 | err e ↦ (err e, (m w).1) ]

abbrev pub ◌>>◌ {ℓ ι} :
    {W : Type 0} {E : Type ℓ} {B : Type ι} → Action W E (Unit {0}) → Action W E B → Action W E B
m >> k = m >>= λ _. k

abbrev pub return {ℓ κ} : {W : Type 0} {E : Type ℓ} {A : Type κ} → A → Action W E A
return a w = (ok a, w)

abbrev pub throw {ℓ κ} : {W : Type 0} {E : Type ℓ} {A : Type κ} → E → Action W E A
throw e w = (err e, w)

-- The error of a failed action is rewritten; a result passes.
abbrev pub catch_error {ℓ κ} :
    {W : Type 0} {E : Type ℓ} {A : Type κ} → (E → E) → Action W E A → Action W E A
catch_error f m w = elim ((m w).0) [ ok a ↦ (ok a, (m w).1) | err e ↦ (err (f e), (m w).1) ]

-- A check that needs no world.
abbrev pub lift {ℓ κ} : {W : Type 0} {E : Type ℓ} {A : Type κ} → Result E A → Action W E A
lift r w = (r, w)

-- An action whose result is dropped, at an error.
pub caught_err {ℓ κ} :
    {W : Type 0} {E : Type ℓ} {A : Type κ} (f : E → E) (m : Action W E A) (w w' : W) (e : E)
    → m w ≡ (err e, w')
    → ◌>>=◌ {ℓ, κ, 0} {B = Unit {0}} (catch_error f m) (λ _. return tt) w ≡ (err (f e), w')
caught_err f m w w' e h = rw (h, ◌>>=◌, catch_error) (rw (h, catch_error) (rw h))

pub catch_error_err {ℓ κ} :
    {W : Type 0} {E : Type ℓ} {A : Type κ} (f : E → E) (m : Action W E A) (w w' : W) (e : E)
    → m w ≡ (err e, w')
    → catch_error f m w ≡ (err (f e), w')
catch_error_err f m w w' e h = rw (h, catch_error) (rw h)
