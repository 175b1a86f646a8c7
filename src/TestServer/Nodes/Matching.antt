-- ===== src/TestServer/Nodes/Matching.antt =====
-- What it means that a node passes the filter of findFreeNode, in testservice.go.
use mathlib.Core.Path.{subst}
use gomaasapi.Prelude.{
  ap, sym, ◌∙◌, ==_refl, ◌≡◌, ◌↔◌, ◌⊎◌, inl, inr, refl, Bool, true, false, Option, none, some, [],
  ◌==◌, nat_eq, list_eq, ok, err, Result, arith, ◌&&◌,
}
use gomaasapi.Strings.{Text, codes, split}
use gomaasapi.Params.{Values, get, first_value}
use gomaasapi.Http.{Platform}
use gomaasapi.Object.{JsonObject, get_float64}
use gomaasapi.Object.Maas.{MaasObject, get_field, lookup}
use gomaasapi.TestServer.Nodes.{
  match_field, match_architecture, match_numeric_field, wanted, matches, equals, base_equals,
  at_most,
}

module _ (P : Platform) where
  ==-sound : (s t : Text) → (s == t) ≡ true → s ≡ t
  ==-sound s t h = ground arith

  ok_injective : (s t : Text) → ◌≡◌ {A = Result P.Err Text} (ok s) (ok t) → s ≡ t
  ok_injective s t h = cc

  -- The field is this text.
  abbrev pub HasText : Text → Text → MaasObject P → Type 0
  HasText k v n = get_field P k n ≡ ok v

  -- The field is a text whose part before the first slash is this one.
  abbrev pub HasBase : Text → Text → MaasObject P → Type 0
  HasBase k v n = (t : Text) × (get_field P k n ≡ ok t) × (v ≡ first_value (split t b'/'))

  equals_iff : (v : Text) (r : Result P.Err Text) → (equals P v r ≡ true) ↔ (r ≡ ok v)
  unfolding equals
  equals_iff v (ok s) = (λ h. ap ok (==-sound s v h), λ h. rw (ok_injective s v h) (==_refl v))
  equals_iff v (err e) = (λ h. absurd (cc), λ h. absurd (cc))

  match_field_iff : (k v : Text) (n : MaasObject P) → (match_field P k v n ≡ true) ↔ HasText k v n
  unfolding match_field
  match_field_iff k v n = equals_iff v (get_field P k n)

  base_equals_iff :
      (v : Text) (r : Result P.Err Text)
      → (base_equals P v r ≡ true) ↔ ((t : Text) × (r ≡ ok t) × (v ≡ first_value (split t b'/')))
  unfolding base_equals
  base_equals_iff v (ok s) = (
    λ h. (s, refl, ==-sound v (first_value (split s b'/')) h),
    λ (t, e, f).
        subst (λ w. (w == first_value (split s b'/')) ≡ true)
          (ap (λ w. first_value (split w b'/')) (ok_injective s t e) ∙ sym f)
          (==_refl (first_value (split s b'/'))),
  )
  base_equals_iff v (err e) = (λ h. absurd (cc), λ (t, h, _). absurd (cc))

  match_architecture_iff :
      (k v : Text) (n : MaasObject P) → (match_architecture P k v n ≡ true) ↔ HasBase k v n
  unfolding match_architecture
  match_architecture_iff k v n = base_equals_iff v (get_field P k n)

  module _ (parse_float : Text → Option P.Float) (float_leb : P.Float → P.Float → Bool) where
    -- The field is a number that is at least the one that the text stands for.
    abbrev pub HasAtLeast : Text → Text → MaasObject P → Type 0
    HasAtLeast k v n =
        (o : JsonObject P.Float) × (x y : P.Float) × (lookup P k n.values ≡ some o)
        × (get_float64 P o ≡ ok x)
        × (parse_float v ≡ some y)
        × (float_leb y x ≡ true)

    least_iff :
        (x : P.Float) (r : Option P.Float)
        → (elim r [ none ↦ false | some y ↦ float_leb y x ] ≡ true)
          ↔ ((y : P.Float) × (r ≡ some y) × (float_leb y x ≡ true))
    least_iff x none = (λ h. absurd (cc), λ (y, e, _). absurd (cc))
    least_iff x (some y) = (λ h. (y, refl, h), λ (z, e, h). let p : y ≡ z = cc in rw p h)

    at_most_iff :
        (v : Text) (r : Result P.Err P.Float)
        → (at_most P parse_float float_leb v r ≡ true)
          ↔ ((x y : P.Float) × (r ≡ ok x) × (parse_float v ≡ some y) × (float_leb y x ≡ true))
    unfolding at_most
    at_most_iff v (err e) = (λ h. absurd (cc), λ (x, y, h, _, _). absurd (cc))
    at_most_iff v (ok x) =
        let (to, from) = least_iff x (parse_float v) in
        (
          λ h. let (y, e, l) = to h in (x, y, refl, e, l),
          λ (z, y, e, f, l).
              let p : z ≡ x = cc in from (y, f, subst (λ w. float_leb y w ≡ true) p l),
        )

    numeric_iff :
        (v : Text) (r : Option (JsonObject P.Float))
        → (elim r [ none ↦ false | some o ↦ at_most P parse_float float_leb v (get_float64 P o) ]
            ≡ true)
          ↔ ((o : JsonObject P.Float) × (x y : P.Float) × (r ≡ some o)
              × (get_float64 P o ≡ ok x)
              × (parse_float v ≡ some y)
              × (float_leb y x ≡ true))
    numeric_iff v none = (λ h. absurd (cc), λ (o, x, y, h, _, _, _). absurd (cc))
    numeric_iff v (some o) =
        let (to, from) = at_most_iff v (get_float64 P o) in
        (
          λ h. let (x, y, e, f, l) = to h in (o, x, y, refl, e, f, l),
          λ (q, x, y, e, f, g, l).
              let p : q ≡ o = cc in from (x, y, subst (λ w. get_float64 P w ≡ ok x) p f, g, l),
        )

    match_numeric_field_iff :
        (k v : Text) (n : MaasObject P)
        → (match_numeric_field P parse_float float_leb k v n ≡ true) ↔ HasAtLeast k v n
    unfolding match_numeric_field
    match_numeric_field_iff k v n = numeric_iff v (lookup P k n.values)

    wanted_iff :
        (test : Text → MaasObject P → Bool) (v : Text) (n : MaasObject P)
        → (wanted P parse_float float_leb test v n ≡ true) ↔ ((v ≡ []) ⊎ (test v n ≡ true))
    unfolding wanted
    wanted_iff test v n = ground arith

    -- Each filter that is given is met: by the name, the zone, the tags, at least the memory, the
    -- architecture, and at least the number of cores.
    abbrev pub Passes : Values → MaasObject P → Type 0
    Passes filter n =
        ((get (codes "name") filter ≡ [])
          ⊎ HasText (codes "hostname") (get (codes "name") filter) n)
        × ((get (codes "zone") filter ≡ []) ⊎ HasText (codes "zone") (get (codes "zone") filter) n)
        × ((get (codes "tags") filter ≡ [])
            ⊎ HasText (codes "tag_names") (get (codes "tags") filter) n)
        × ((get (codes "mem") filter ≡ [])
            ⊎ HasAtLeast (codes "memory") (get (codes "mem") filter) n)
        × ((get (codes "arch") filter ≡ [])
            ⊎ HasBase (codes "architecture") (get (codes "arch") filter) n)
        × ((get (codes "cpu-cores") filter ≡ [])
            ⊎ HasAtLeast (codes "cpu_count") (get (codes "cpu-cores") filter) n)

    both_iff :
        {X Y : Type 0} (a b : Bool) → (a ≡ true) ↔ X → (b ≡ true) ↔ Y → ((a && b) ≡ true) ↔ (X × Y)
    both_iff a b f g = ground arith

    given_iff :
        {X : Type 0} (test : Text → MaasObject P → Bool) (v : Text) (n : MaasObject P)
        → (test v n ≡ true) ↔ X
        → (wanted P parse_float float_leb test v n ≡ true) ↔ ((v ≡ []) ⊎ X)
    given_iff test v n f = (
      λ h. elim ((wanted_iff test v n).0 h) [ inl e ↦ inl e | inr e ↦ inr (f.0 e) ],
      λ h. (wanted_iff test v n).1 (elim h [ inl e ↦ inl e | inr x ↦ inr (f.1 x) ]),
    )

    pub matches_iff :
        (filter : Values) (n : MaasObject P)
        → (matches P parse_float float_leb filter n ≡ true) ↔ Passes filter n
    unfolding matches wanted
    matches_iff filter n =
        let (to, from) =
          (both_iff _ _
            (both_iff _ _
              (both_iff _ _
                (both_iff _ _
                  (both_iff _ _
                    (given_iff (match_field P (codes "hostname")) (get (codes "name") filter) n
                      (match_field_iff (codes "hostname") (get (codes "name") filter) n))
                    (given_iff (match_field P (codes "zone")) (get (codes "zone") filter) n
                      (match_field_iff (codes "zone") (get (codes "zone") filter) n)))
                  (given_iff (match_field P (codes "tag_names")) (get (codes "tags") filter) n
                    (match_field_iff (codes "tag_names") (get (codes "tags") filter) n)))
                (given_iff (match_numeric_field P parse_float float_leb (codes "memory"))
                  (get (codes "mem") filter) n
                  (match_numeric_field_iff (codes "memory") (get (codes "mem") filter) n)))
              (given_iff (match_architecture P (codes "architecture")) (get (codes "arch") filter) n
                (match_architecture_iff (codes "architecture") (get (codes "arch") filter) n)))
            (given_iff (match_numeric_field P parse_float float_leb (codes "cpu_count"))
              (get (codes "cpu-cores") filter) n
              (match_numeric_field_iff (codes "cpu_count") (get (codes "cpu-cores") filter) n))) in
        (
          λ h. let (((((a, b), c), d), e), f) = to h in (a, b, c, d, e, f),
          λ (a, b, c, d, e, f). from (((((a, b), c), d), e), f),
        )
