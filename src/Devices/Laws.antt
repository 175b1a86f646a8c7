-- ===== src/Devices/Laws.antt =====
-- The interfaces of devices: the arguments, and the URI under which they are made.
use gomaasapi.Prelude.{
  ◌≡◌, refl, sym, ap, ◌∙◌, ◌↔◌, ◌⊎◌, inl, inr, true, false, some, [], ◌∷◌, ◌++◌, ◌==◌, ◌≢◌,
  append-nil, nat_eq, list_eq, arith, length, drop, ok, Bool-cases,
}
use gomaasapi.Strings.{Text, has_prefix}
use gomaasapi.Http.{Platform}
use gomaasapi.Resources.Networks.{Vlan}
use gomaasapi.Devices.{replace_first, CreateInterfaceArgs, create_interface_args_validate}

has_prefix-drop : (s old : Text) → has_prefix s old ≡ true → s ≡ old ++ drop (length old) s
unfolding has_prefix
has_prefix-drop s [] h = refl
has_prefix-drop [] (d ∷ old) h = absurd (cc)
has_prefix-drop (c ∷ s) (d ∷ old) h = elim (Bool-cases (c == d)) [
  | inl e ↦
      let same : c ≡ d = ground arith in
      let rest : has_prefix s old ≡ true = sym (rw e refl) ∙ h in
      rw same (ap (λ t. d ∷ t) (has_prefix-drop s old rest))
  | inr e ↦ absurd (ground arith)
]

-- `old` does not begin at any place of `before`, in `before` and what follows it.
abbrev pub Clear : Text → Text → Text → Type 0
Clear old [] rest = Unit
Clear old (c ∷ before) rest =
    (has_prefix (c ∷ (before ++ rest)) old ≡ false) × Clear old before rest

-- `replace_first` replaces the first occurrence of `old`, and leaves a text without one as it is.
replace_first_lem :
    (old new s : Text)
    → ((replace_first old new s ≡ s) × Clear old s [])
      ⊎ ((before rest : Text) × (s ≡ before ++ (old ++ rest))
          × (replace_first old new s ≡ before ++ (new ++ rest))
          × Clear old before (old ++ rest))
unfolding replace_first
replace_first_lem old new [] = inl (refl, tt)
replace_first_lem old new (c ∷ s) = elim (Bool-cases (has_prefix (c ∷ s) old)) [
  | inl e ↦ inr ([], drop (length old) (c ∷ s), has_prefix-drop (c ∷ s) old e, rw e refl, tt)
  | inr e ↦ elim (replace_first_lem old new s) [
    | inl (same, clear) ↦ inl (rw e (ap (λ t. c ∷ t) same), (rw (append-nil s) e, clear))
    | inr (before, rest, split, replaced, clear) ↦ inr (
      c ∷ before,
      rest,
      ap (λ t. c ∷ t) split,
      rw e (ap (λ t. c ∷ t) replaced),
      (ap (λ t. has_prefix (c ∷ t) old) (sym split) ∙ e, clear),
    )
  ]
]

module _ (P : Platform) where
  -- Validation passes the arguments with a name, an address and a VLAN, and gives the VLAN.
  pub create_interface_args_validate_iff :
      (a : CreateInterfaceArgs) (v : Vlan)
      → (create_interface_args_validate P a ≡ ok v)
        ↔ ((a.name ≢ []) × (a.mac_address ≢ []) × (a.vlan ≡ some v))
  unfolding create_interface_args_validate
  create_interface_args_validate_iff a v = ground arith
