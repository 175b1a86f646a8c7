-- ===== src/TestServer/Numbered/Members.antt =====
-- The objects that a walk through the identifiers meets.
use mathlib.Core.Path.{subst}
use mathlib.Core.List.Memᴰ
use mathlib.Core.List.{Memᴰ}
use gomaasapi.Prelude.{
  ℕ, zero, suc, ◌+◌, ◌<◌, ◌≤◌, ◌≡◌, ◌≢◌, ◌↔◌, sym, ap, ◌∙◌, none, some, List, ◌==◌, nat_eq,
  Bool-cases, Option-cases, inl, inr, arith,
}
use gomaasapi.TestServer.Store.{find}
use gomaasapi.TestServer.Numbered.{in_order, in_order-found, in_order-absent}

-- The walk through the identifiers meets the objects that stand under them, and no others.
pub Member-in_order :
    {A : Type 0} (rounds i : ℕ) (m : List (ℕ × A)) (a : A)
    → Memᴰ a (in_order rounds i m)
      ↔ ((id : ℕ) × (i ≤ id) × (id < i + rounds) × (find id m ≡ some a))
unfolding in_order
Member-in_order zero i m a = (λ h. absurd (Memᴰ.not-nil h), λ (id, h, k, _). absurd (omega arith))
Member-in_order (suc rounds) i m a =
    let (to, from) = Member-in_order rounds (i + 1) m a in
    elim (Option-cases (find i m)) [
      | inl e ↦
          let same = in_order-absent rounds i m e in
          (
            λ h.
                let (id, l, r, f) = to (subst (Memᴰ a) same h) in (id, omega arith, omega arith, f),
            λ (id, l, r, f). subst (Memᴰ a) (sym same) (from (id, later id l e f, omega arith, f)),
          )
      | inr (b, e) ↦
          let more = in_order-found rounds i b m e in
          (
            λ h. elim (Memᴰ.cases_cons (subst (Memᴰ a) more h)) [
              | inl p ↦ (i, omega arith, omega arith, e ∙ ap (λ c. some c) (sym p))
              | inr k ↦ let (id, l, r, f) = to k in (id, omega arith, omega arith, f)
            ],
            λ (id, l, r, f). subst (Memᴰ a) (sym more) (elim (Bool-cases (id == i)) [
              | inl q ↦
                  let p : id ≡ i = ground arith in
                  let both : some a ≡ some b = sym f ∙ ap (λ j. find j m) p ∙ e in
                  Memᴰ.head (let same : a ≡ b = cc in same)
              | inr q ↦
                  let distinct : id ≢ i = ground arith in
                  Memᴰ.tail (from (id, omega arith, omega arith, f))
            ]),
          )
    ]
  where
    later : (id : ℕ) → i ≤ id → find i m ≡ none → find id m ≡ some a → i + 1 ≤ id
    later id l e f = elim (Bool-cases (id == i)) [
      | inl q ↦
          let p : id ≡ i = ground arith in
          let both : none ≡ some a = sym e ∙ ap (λ j. find j m) (sym p) ∙ f in absurd cc
      | inr q ↦ let distinct : id ≢ i = ground arith in omega arith
    ]
