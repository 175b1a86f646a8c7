-- ===== src/Reading/Choice.antt =====
-- The choice of a reading function by the version: the highest version that is not above the
-- controller's, in whatever order the map is gone through.
use mathlib.Core.Path.{ap, ap₂}
use mathlib.Core.Logic.{∥∥₁_elim}
use mathlib.Core.List.{Permᴰ, Perm}
use gomaasapi.Prelude.{
  ◌≡◌, ◌≢◌, refl, sym, ◌∙◌, ◌⊎◌, inl, inr, true, false, not, ◌&&◌, [], ◌∷◌, if◌then◌else◌, nat_eq,
  arith, All, All-mono, Bool-cases, ok, err,
}
use gomaasapi.Strings.{Text}
use gomaasapi.Value.{Members}
use gomaasapi.Versions.{Version, zero_version, version_leb, version_beq}
use gomaasapi.Http.{Platform}
use gomaasapi.Schema.{Juju}
use gomaasapi.Reading.{
  returned, Style, Read, Funcs, find_func, deserialisation_version, no_read_func, select,
}

version_beq_eq : (v w : Version) → version_beq v w ≡ true → v ≡ w
version_beq_eq v w h = ground arith

version_beq_refl : (v : Version) → version_beq v v ≡ true
version_beq_refl v = ground arith

version_leb_antisym : (v w : Version) → version_leb v w ≡ true → version_leb w v ≡ true → v ≡ w
version_leb_antisym v w h k = ground arith

version_leb_trans :
    (u v w : Version) → version_leb u v ≡ true → version_leb v w ≡ true → version_leb u w ≡ true
version_leb_trans u v w h k = ground arith

version_leb_total : (v w : Version) → (version_leb v w ≡ true) ⊎ (version_leb w v ≡ true)
version_leb_total v w = ground arith

not_zero : (r : Version) → version_beq r zero_version ≡ false → r ≢ zero_version
not_zero r e h = ground arith

below_zero :
    (v r : Version) → version_beq r zero_version ≡ true → version_leb v r ≡ true → v ≡ zero_version
below_zero v r e h = ground arith

module _ (P : Platform) (J : Juju P) where
  -- The loop's step, with the order of the versions in place of their comparison.
  better : Version → Version → Version → Version
  better controller best v =
      if not (version_leb v best) && version_leb v controller then v else best

  deserialisation_version-cons :
      {A : Type 0} (c best v : Version) (f : Members P.Float → Read P A) (funcs : Funcs P A)
      → deserialisation_version P J c best ((v, f) ∷ funcs)
        ≡ deserialisation_version P J c (better c best v) funcs
  unfolding deserialisation_version better
  deserialisation_version-cons c best v f funcs = rw (J.compare_iff v best, J.compare_iff v c) refl

  better_above : (c best v : Version) → version_leb best (better c best v) ≡ true
  unfolding better
  better_above c best v = ground arith

  better_new :
      (c best v : Version) → version_leb v c ≡ true → version_leb v (better c best v) ≡ true
  unfolding better
  better_new c best v h = ground arith

  better_cases :
      (c best v : Version)
      → (better c best v ≡ best) ⊎ ((better c best v ≡ v) × (version_leb v c ≡ true))
  unfolding better
  better_cases c best v = ground arith

  better_least :
      (c best v x : Version)
      → version_leb best x ≡ true
      → (version_leb v c ≡ true → version_leb v x ≡ true)
      → version_leb (better c best v) x ≡ true
  better_least c best v x h k = elim (better_cases c best v) [
    | inl e ↦ rw e h
    | inr (e, l) ↦ rw e (k l)
  ]

  better_swap :
      (c best v w : Version)
      → version_leb (better c (better c best v) w) (better c (better c best w) v) ≡ true
  better_swap c best v w =
      let kept = better_above c (better c best w) v in
      better_least c (better c best v) w _
        (better_least c best v _ (version_leb_trans _ _ _ (better_above c best w) kept)
          (better_new c (better c best w) v))
        (λ l. version_leb_trans _ _ _ (better_new c best w l) kept)

  -- Of two versions in either order the same is kept.
  better_comm : (c best v w : Version) → better c (better c best v) w ≡ better c (better c best w) v
  better_comm c best v w = version_leb_antisym _ _ (better_swap c best v w) (better_swap c best w v)

  deserialisation_version-two :
      {A : Type 0} (c best v w : Version) (f g : Members P.Float → Read P A) (funcs : Funcs P A)
      → deserialisation_version P J c best ((v, f) ∷ (w, g) ∷ funcs)
        ≡ deserialisation_version P J c (better c (better c best v) w) funcs
  deserialisation_version-two c best v w f g funcs =
      deserialisation_version-cons c best v f ((w, g) ∷ funcs)
      ∙ deserialisation_version-cons c (better c best v) w g funcs

  deserialisation_version-Permᴰ :
      {A : Type 0} (c best : Version) (funcs others : Funcs P A)
      → Permᴰ funcs others
      → deserialisation_version P J c best funcs ≡ deserialisation_version P J c best others
  deserialisation_version-Permᴰ c best _ _ Permᴰ.nil = refl
  deserialisation_version-Permᴰ c best ((v, f) ∷ funcs) ((w, g) ∷ others) (Permᴰ.cons e p) =
      deserialisation_version-cons c best v f funcs
      ∙ ap (λ u. deserialisation_version P J c (better c best u) funcs) (ap (λ p. p.0) e)
      ∙ deserialisation_version-Permᴰ c (better c best w) funcs others p
      ∙ sym (deserialisation_version-cons c best w g others)
  deserialisation_version-Permᴰ c best ((v, f) ∷ (w, g) ∷ funcs) _ (Permᴰ.swap e e') =
      deserialisation_version-two c best v w f g funcs
      ∙ ap (λ u. deserialisation_version P J c u funcs) (better_comm c best v w)
      ∙ sym (deserialisation_version-two c best w v g f funcs)
      ∙ ap (λ q. deserialisation_version P J c best q) (ap₂ (λ a b. b ∷ a ∷ funcs) e e')
  deserialisation_version-Permᴰ c best _ _ (Permᴰ.trans p q) =
      deserialisation_version-Permᴰ c best _ _ p ∙ deserialisation_version-Permᴰ c best _ _ q

  -- The version that is chosen does not depend on the order in which the map is gone through.
  pub deserialisation_version-Perm :
      {A : Type 0} (c : Version) (funcs others : Funcs P A)
      → Perm funcs others
      → deserialisation_version P J c zero_version funcs
        ≡ deserialisation_version P J c zero_version others
  deserialisation_version-Perm c funcs others p =
      ∥∥₁_elim p (hlevel) (λ q. deserialisation_version-Permᴰ c zero_version funcs others q)

  -- The version after the loop: the highest of the table's that are not above the controller's and
  -- of the one to begin with; where it is not that one, the table has a function for it.
  pub record Chosen {A : Type 0} (c best : Version) (funcs : Funcs P A) (r : Version) : Type 0 where
    pub highest : All (λ (v, f). version_leb v c ≡ true → version_leb v r ≡ true) funcs
    pub above_best : version_leb best r ≡ true
    pub chosen :
        (r ≡ best)
        ⊎ ((version_leb r c ≡ true)
            × ((f : Members P.Float → Read P A) × (find_func P r funcs ≡ ok f)))

  find_func-cons :
      {A : Type 0} (r v : Version) (f : Members P.Float → Read P A) (funcs : Funcs P A)
      → (r ≡ v) ⊎ ((g : Members P.Float → Read P A) × (find_func P r funcs ≡ ok g))
      → (g : Members P.Float → Read P A) × (find_func P r ((v, f) ∷ funcs) ≡ ok g)
  unfolding find_func
  find_func-cons r v f funcs (inl same) = (f, rw (same, find_func) (rw (version_beq_refl v)))
  find_func-cons r v f funcs (inr (g, k)) = elim (Bool-cases (version_beq v r)) [
    | inl e ↦ (f, rw e)
    | inr e ↦ (g, rw e k)
  ]

  deserialisation_version-Chosen :
      {A : Type 0} (c best : Version) (funcs : Funcs P A)
      → Chosen c best funcs (deserialisation_version P J c best funcs)
  unfolding deserialisation_version
  deserialisation_version-Chosen c best [] = record {
    highest = tt;
    above_best = ground arith;
    chosen = inl refl;
  }
  deserialisation_version-Chosen c best ((v, f) ∷ funcs) =
      let rest = deserialisation_version-Chosen c (better c best v) funcs in
      rw (deserialisation_version-cons c best v f funcs) (record {
        highest =
            (λ l. version_leb_trans _ _ _ (better_new c best v l) rest.above_best, rest.highest);
        above_best = version_leb_trans _ _ _ (better_above c best v) rest.above_best;
        chosen = elim rest.chosen [
          | inl e ↦ elim (better_cases c best v) [
            | inl kept ↦ inl (e ∙ kept)
            | inr (new, l) ↦ inr (rw (e ∙ new) l, find_func-cons _ v f funcs (inl (e ∙ new)))
          ]
          | inr (l, found) ↦ inr (l, find_func-cons _ v f funcs (inr found))
        ];
      })

  -- The function that is chosen is the table's for the highest version that is not above the
  -- controller's; there is none, and an error is returned, only where the table has no version but
  -- 0.0 that is not above the controller's. In no case does the choice panic.
  pub select_lem :
      {A : Type 0} (style : Style) (name : Text) (c : Version) (funcs : Funcs P A)
      → ((select P J style name c funcs ≡ err (returned (no_read_func P J style name c)))
          × All (λ (v, f). version_leb v c ≡ true → v ≡ zero_version) funcs)
        ⊎ ((v : Version) × (f : Members P.Float → Read P A) × (select P J style name c funcs ≡ ok f)
            × (find_func P v funcs ≡ ok f)
            × (version_leb v c ≡ true)
            × All (λ (w, g). version_leb w c ≡ true → version_leb w v ≡ true) funcs)
  unfolding select
  select_lem style name c funcs =
      let r = deserialisation_version P J c zero_version funcs in
      let found = deserialisation_version-Chosen c zero_version funcs in
      elim (Bool-cases (version_beq r zero_version)) [
        | inl e ↦
            inl (rw e, All-mono _ _ (λ (v, f) h l. below_zero v r e (h l)) funcs found.highest)
        | inr e ↦ elim found.chosen [
          | inl zero ↦ absurd (not_zero r e zero)
          | inr (l, (f, k)) ↦ inr (r, f, rw (e, select) k, k, l, found.highest)
        ]
      ]
