-- ===== src/Testing/Queues.antt =====
-- The responses of SimpleTestServer of testing.go to one method, as queues.
use gomaasapi.Prelude.{
  ℕ, zero, suc, ◌≡◌, refl, sym, ap, ◌∙◌, ◌⊎◌, inl, inr, false, Option, none, some, List, [], ◌∷◌,
  drop, if◌then◌else◌, ◌==◌, nat_eq, list_eq, Bool-cases, Option-cases, arith,
}
use gomaasapi.Strings.{Text}
use gomaasapi.TestServer.Store.{find, store, find-store_same, find-store_other}
use gomaasapi.Testing.{SimpleResponse, Served, index_at, missing_page, next_response, serve}

-- The responses that are still to come; none where none was ever added
abbrev pub queue : Text → Served → Option (List SimpleResponse)
queue uri q = elim (find uri q.responses) [ none ↦ none | some l ↦ some (drop (index_at uri q) l) ]

drop-suc :
    (i : ℕ) (l : List SimpleResponse) (r : SimpleResponse) (rest : List SimpleResponse)
    → drop i l ≡ r ∷ rest
    → drop (suc i) l ≡ rest
drop-suc zero [] r rest h = cc
drop-suc zero (x ∷ l) r rest h = cc
drop-suc (suc i) [] r rest h = cc
drop-suc (suc i) (x ∷ l) r rest h = drop-suc i l r rest h

unfoldable pub advanced : Text → Served → Served
advanced uri q = record q { response_index = store uri (suc (index_at uri q)) q.response_index }

pub index_at-advanced :
    (uri : Text) (q : Served) → index_at uri (advanced uri q) ≡ suc (index_at uri q)
unfolding advanced
index_at-advanced uri q =
    rw (index_at, find-store_same uri (suc (index_at uri q)) q.response_index) refl

pub index_at-advanced_other :
    (uri other : Text) (q : Served)
    → (uri == other) ≡ false
    → index_at other (advanced uri q) ≡ index_at other q
unfolding advanced
index_at-advanced_other uri other q h =
    rw (index_at, find-store_other uri other (suc (index_at uri q)) q.response_index h) refl

some-injective : (l r : List SimpleResponse) → some l ≡ some r → l ≡ r
some-injective l r h = cc

queue-found :
    (uri : Text) (q : Served) (left : List SimpleResponse)
    → queue uri q ≡ some left
    → (l : List SimpleResponse) × (find uri q.responses ≡ some l) × (drop (index_at uri q) l ≡ left)
queue-found uri q left h = elim (Option-cases (find uri q.responses)) [
  | inl e ↦
      let nothing_there : queue uri q ≡ none = rw (queue, e) refl in
      let both : some left ≡ none = sym h ∙ nothing_there in absurd cc
  | inr (l, e) ↦
      let there : queue uri q ≡ some (drop (index_at uri q) l) = rw (queue, e) refl in
      (l, e, some-injective _ _ (sym there ∙ h))
]

queue-advanced :
    (uri other : Text) (q : Served) (r : SimpleResponse) (rest : List SimpleResponse)
    → queue uri q ≡ some (r ∷ rest)
    → queue other (advanced uri q) ≡ (if other == uri then some rest else queue other q)
unfolding advanced
queue-advanced uri other q r rest h = elim (Bool-cases (other == uri)) [
  | inl e ↦
      let p : other ≡ uri = ground arith in
      let (l, found, left) = queue-found uri q (r ∷ rest) h in
      rw e (
        rw p (
          rw (queue, found, index_at-advanced uri q)
            (ap (λ l. some l) (drop-suc (index_at uri q) l r rest left))))
  | inr e ↦
      let distinct : (uri == other) ≡ false = ground arith in
      rw e (
        ap (λ i. elim (find other q.responses) [ none ↦ none | some l ↦ some (drop i l) ])
          (index_at-advanced_other uri other q distinct))
]

pub serve_lem :
    (uri : Text) (q : Served)
    → ((queue uri q ≡ none) × (serve uri q ≡ some (missing_page uri, q)))
      ⊎ ((queue uri q ≡ some []) × (serve uri q ≡ none))
      ⊎ ((r : SimpleResponse) × (rest : List SimpleResponse) × (q' : Served) × (queue uri q
            ≡ some (r ∷ rest))
          × (serve uri q ≡ some (r, q'))
          × ((other : Text) → queue other q' ≡ (if other == uri then some rest else queue other q)))
unfolding serve next_response advanced
serve_lem uri q = elim (Option-cases (find uri q.responses)) [
  | inl e ↦ inl (rw (queue, e) refl, rw (serve, e) refl)
  | inr (l, e) ↦ go l e (drop (index_at uri q) l) refl
]
  where
    go :
        (l : List SimpleResponse)
        → find uri q.responses ≡ some l
        → (left : List SimpleResponse) → drop (index_at uri q) l ≡ left
        → ((queue uri q ≡ none) × (serve uri q ≡ some (missing_page uri, q)))
          ⊎ ((queue uri q ≡ some []) × (serve uri q ≡ none))
          ⊎ ((r : SimpleResponse) × (rest : List SimpleResponse) × (q' : Served) × (queue uri q
                ≡ some (r ∷ rest))
              × (serve uri q ≡ some (r, q'))
              × ((other : Text)
                  → queue other q' ≡ (if other == uri then some rest else queue other q)))
    go l e [] f = inr (inl (rw (queue, e, f) refl, rw (serve, e, f) refl))
    go l e (r ∷ rest) f =
        let here : queue uri q ≡ some (r ∷ rest) = rw (queue, e, f) refl in
        inr (
          inr (
            r,
            rest,
            advanced uri q,
            here,
            rw (serve, e, f) refl,
            λ other. queue-advanced uri other q r rest here,
          ))
