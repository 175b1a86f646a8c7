-- ===== src/Testing/Added.antt =====
-- What becomes of the queues of responses where one is added, and that the next response to each URL is
-- never beyond the end.
use mathlib.Core.Path.{subst}
use gomaasapi.Prelude.{
  ℕ, zero, suc, ◌≡◌, ◌≤◌, refl, sym, ap, ◌∙◌, inl, inr, false, Option, none, some, List, [], ◌∷◌,
  ◌++◌, drop, length, length-append, if◌then◌else◌, ◌==◌, nat_eq, list_eq, Bool-cases, Option-cases,
  arith,
}
use gomaasapi.Strings.{Text}
use gomaasapi.TestServer.Store.{find, store, find-store_same, find-store_other}
use gomaasapi.Testing.{SimpleResponse, Served, responses_at, index_at, next_response, serve}
use gomaasapi.Testing.Queues.{queue, advanced, index_at-advanced, index_at-advanced_other}

-- Where no response is to come, the list is empty.
abbrev pub left : Option (List SimpleResponse) → List SimpleResponse
left none = []
left (some l) = l

-- The next response to each URL is one of those that were added, or the one to be added next.
abbrev pub Fits : Served → Type 0
Fits q = (uri : Text) → index_at uri q ≤ length (responses_at uri q)

drop-append : (i : ℕ) (l m : List SimpleResponse) → i ≤ length l → drop i (l ++ m) ≡ drop i l ++ m
drop-append zero l m h = refl
drop-append (suc i) [] m h = absurd (omega arith)
drop-append (suc i) (x ∷ l) m h = drop-append i l m (omega arith)

drop-length :
    (i : ℕ) (l : List SimpleResponse) (r : SimpleResponse) (rest : List SimpleResponse)
    → drop i l ≡ r ∷ rest
    → suc i ≤ length l
drop-length zero [] r rest h = absurd cc
drop-length zero (x ∷ l) r rest h = omega arith
drop-length (suc i) [] r rest h = absurd cc
drop-length (suc i) (x ∷ l) r rest h = omega (arith, drop-length i l r rest h)

abbrev pub with_added : Text → SimpleResponse → Served → Served
with_added path x q = record q {
  responses = store path (responses_at path q ++ x ∷ []) q.responses;
}

-- A response goes behind those that are still to come to its URL.
pub queue-with_added :
    (path : Text) (x : SimpleResponse) (q : Served) (uri : Text)
    → Fits q
    → queue uri (with_added path x q)
      ≡ (if uri == path then some (left (queue path q) ++ x ∷ []) else queue uri q)
queue-with_added path x q uri h = elim (Bool-cases (uri == path)) [
  | inl e ↦
      let p : uri ≡ path = ground arith in
      rw (e, p)
        (rw (queue, find-store_same path (responses_at path q ++ x ∷ []) q.responses)
          (behind (find path q.responses) refl))
  | inr e ↦
      let distinct : (path == uri) ≡ false = ground arith in
      rw (e, queue, find-store_other path uri (responses_at path q ++ x ∷ []) q.responses distinct)
        refl
]
  where
    behind :
        (o : Option (List SimpleResponse))
        → find path q.responses ≡ o
        → ◌≡◌ {A = Option (List SimpleResponse)}
            (some (drop (index_at path q) (responses_at path q ++ x ∷ [])))
            (some (left (queue path q) ++ x ∷ []))
    behind none e =
        let bound : index_at path q ≤ length (responses_at path q) = h path in
        let first : responses_at path q ≡ [] = rw (responses_at, e) refl in
        let start : index_at path q ≡ 0 =
          omega (arith, subst (λ l. index_at path q ≤ length l) first bound) in
        rw (first, start, queue, e) refl
    behind (some l) e =
        let bound : index_at path q ≤ length (responses_at path q) = h path in
        let all : responses_at path q ≡ l = rw (responses_at, e) refl in
        rw (queue, e, all)
          (ap (λ l. some l)
            (drop-append (index_at path q) l (x ∷ [])
              (subst (λ l. index_at path q ≤ length l) all bound)))

responses_at-with_added :
    (path uri : Text) (x : SimpleResponse) (q : Served)
    → responses_at uri (with_added path x q)
      ≡ (if uri == path then responses_at path q ++ x ∷ [] else responses_at uri q)
responses_at-with_added path uri x q = elim (Bool-cases (uri == path)) [
  | inl e ↦
      let p : uri ≡ path = ground arith in
      rw (e, p)
        (rw (responses_at, find-store_same path (responses_at path q ++ x ∷ []) q.responses) refl)
  | inr e ↦
      let distinct : (path == uri) ≡ false = ground arith in
      rw
        (
          e,
          responses_at,
          find-store_other path uri (responses_at path q ++ x ∷ []) q.responses distinct,
        )
        refl
]

pub with_added-Fits :
    (path : Text) (x : SimpleResponse) (q : Served) → Fits q → Fits (with_added path x q)
with_added-Fits path x q h uri =
    let k = h uri in
    let e = responses_at-with_added path uri x q in
    elim (Bool-cases (uri == path)) [
      | inl f ↦
          let p : uri ≡ path = ground arith in
          let longer : responses_at uri (with_added path x q) ≡ responses_at path q ++ x ∷ [] =
            e ∙ rw f refl in
          let bound : index_at path q ≤ length (responses_at path q) = h path in
          let more = length-append (responses_at path q) (x ∷ []) in
          let good : index_at path q ≤ length (responses_at path q ++ x ∷ []) = omega arith in
          subst (λ l. index_at uri q ≤ length l) (sym longer)
            (subst (λ u. index_at u q ≤ length (responses_at path q ++ x ∷ [])) (sym p) good)
      | inr f ↦
          let alike : responses_at uri (with_added path x q) ≡ responses_at uri q = e ∙ rw f refl in
          subst (λ l. index_at uri q ≤ length l) (sym alike) k
    ]

advanced-Fits :
    (uri : Text) (q : Served)
    → suc (index_at uri q) ≤ length (responses_at uri q)
    → Fits q
    → Fits (advanced uri q)
unfolding advanced
advanced-Fits uri q k h other = elim (Bool-cases (other == uri)) [
  | inl e ↦
      let p : other ≡ uri = ground arith in
      subst (λ u. index_at u (advanced uri q) ≤ length (responses_at u q)) (sym p)
        (subst (λ i. i ≤ length (responses_at uri q)) (sym (index_at-advanced uri q)) k)
  | inr e ↦
      let distinct : (uri == other) ≡ false = ground arith in
      subst (λ i. i ≤ length (responses_at other q))
        (sym (index_at-advanced_other uri other q distinct)) (h other)
]

-- What is served afterwards, where there is no panic, fits.
abbrev pub FitsAfter : Option (SimpleResponse × Served) → Type 0
FitsAfter none = Unit
FitsAfter (some (a, q)) = Fits q

pub serve-Fits : (uri : Text) (q : Served) → Fits q → FitsAfter (serve uri q)
unfolding serve next_response advanced
serve-Fits uri q h = elim (Option-cases (find uri q.responses)) [
  | inl e ↦ rw (serve, e) h
  | inr (l, e) ↦ go l e (drop (index_at uri q) l) refl
]
  where
    go :
        (l : List SimpleResponse)
        → find uri q.responses ≡ some l
        → (rest : List SimpleResponse) → drop (index_at uri q) l ≡ rest
        → FitsAfter (serve uri q)
    go l e [] f = rw (serve, e, f) tt
    go l e (r ∷ rest) f =
        let all : responses_at uri q ≡ l = rw (responses_at, e) refl in
        let k : suc (index_at uri q) ≤ length (responses_at uri q) =
          subst (λ l. suc (index_at uri q) ≤ length l) (sym all)
            (drop-length (index_at uri q) l r rest f) in
        rw (serve, e, f) (advanced-Fits uri q k h)
