-- ===== src/Allocate/Validate.antt =====
-- The constraints that pass validation.
use gomaasapi.Prelude.{
  zero, suc, ◌≡◌, refl, ◌≢◌, ◌↔◌, ◌⊎◌, false, none, List, [], ◌∷◌, arith, nat_eq, list_eq, ℤ, pos,
  negsuc, not_positive, All, inr,
}
use gomaasapi.Strings.{Text, codes}
use gomaasapi.Errors.{JujuErrors}
use gomaasapi.Allocate.{
  StorageSpec, InterfaceSpec, AllocateMachineArgs, StringSet, no_empty, storage_spec_validate,
  interface_spec_validate, storage_loop, interface_loop, allocate_machine_args_validate,
}

abbrev pub Positive : ℤ → Type 0
Positive (pos zero) = ⊥
Positive (pos (suc n)) = Unit
Positive (negsuc n) = ⊥

-- A positive size, and no empty tag.
pub record StorageOk (s : StorageSpec) : Type 0 where
  pub size : Positive s.size
  pub tags : All (λ t. t ≢ []) s.tags

-- A label and a space.
pub record InterfaceOk (s : InterfaceSpec) : Type 0 where
  pub label : s.label ≢ []
  pub space : s.space ≢ []

-- No label is used again; an empty one is no label.
abbrev pub FreshStorage : List StorageSpec → Type 0
FreshStorage [] = Unit {0}
FreshStorage (s ∷ specs) =
    ((s.label ≡ []) ⊎ All (λ t. t.label ≢ s.label) specs) × FreshStorage specs

abbrev pub FreshInterfaces : List InterfaceSpec → Type 0
FreshInterfaces [] = Unit {0}
FreshInterfaces (s ∷ specs) = All (λ t. t.label ≢ s.label) specs × FreshInterfaces specs

-- What the documentation of `Validate` asks of the arguments.
pub record WellFormed (a : AllocateMachineArgs) : Type 0 where
  pub storage : All StorageOk a.storage
  pub storage_labels : FreshStorage a.storage
  pub interfaces : All InterfaceOk a.interfaces
  pub interface_labels : FreshInterfaces a.interfaces
  pub not_space : All (λ v. v ≢ []) a.not_space

module _ (E : JujuErrors) where
  no_empty_iff :
      (message : Text) (vs : List Text) → (no_empty E message vs ≡ none) ↔ All (λ v. v ≢ []) vs
  unfolding no_empty
  no_empty_iff message [] = (λ _. tt, λ _. refl)
  no_empty_iff message (v ∷ vs) = ground (arith, no_empty_iff message vs)

  not_positive-Positive : (z : ℤ) → (not_positive z ≡ false) ↔ Positive z
  not_positive-Positive (pos zero) = (λ h. cc, λ h. absurd h)
  not_positive-Positive (pos (suc n)) = (λ _. tt, λ _. ground arith)
  not_positive-Positive (negsuc n) = (λ h. cc, λ h. absurd h)

  storage_spec_validate_iff : (s : StorageSpec) → (storage_spec_validate E s ≡ none) ↔ StorageOk s
  unfolding storage_spec_validate
  storage_spec_validate_iff s =
      ground (arith, not_positive-Positive s.size, no_empty_iff (codes "empty tag") s.tags)

  interface_spec_validate_iff :
      (s : InterfaceSpec) → (interface_spec_validate E s ≡ none) ↔ InterfaceOk s
  unfolding interface_spec_validate
  interface_spec_validate_iff s = ground arith

  module _ (S : StringSet) (quote : Text → Text) where
    -- The labels that are not in the set yet; an empty one need not be.
    abbrev UnseenStorage : S.Strings → List StorageSpec → Type 0
    UnseenStorage labels = All (λ t. (t.label ≡ []) ⊎ (S.contains t.label labels ≡ false))

    abbrev UnseenInterfaces : S.Strings → List InterfaceSpec → Type 0
    UnseenInterfaces labels = All (λ t. S.contains t.label labels ≡ false)

    UnseenStorage-add :
        (labels : S.Strings) (x : Text) (specs : List StorageSpec)
        → x ≢ []
        → UnseenStorage (S.add x labels) specs
          ↔ (UnseenStorage labels specs × All (λ t. t.label ≢ x) specs)
    UnseenStorage-add labels x [] h = (λ _. (tt, tt), λ _. tt)
    UnseenStorage-add labels x (t ∷ specs) h =
        ground (arith, UnseenStorage-add labels x specs h, S.contains-add t.label x labels)

    UnseenInterfaces-add :
        (labels : S.Strings) (x : Text) (specs : List InterfaceSpec)
        → UnseenInterfaces (S.add x labels) specs
          ↔ (UnseenInterfaces labels specs × All (λ t. t.label ≢ x) specs)
    UnseenInterfaces-add labels x [] = (λ _. (tt, tt), λ _. tt)
    UnseenInterfaces-add labels x (t ∷ specs) =
        ground (arith, UnseenInterfaces-add labels x specs, S.contains-add t.label x labels)

    storage_loop_iff :
        (labels : S.Strings) (specs : List StorageSpec)
        → (storage_loop E S quote labels specs ≡ none)
          ↔ (All StorageOk specs × FreshStorage specs × UnseenStorage labels specs)
    unfolding storage_loop
    storage_loop_iff labels [] = (λ _. (tt, tt, tt), λ _. refl)
    storage_loop_iff labels (s ∷ specs) = elim (list_eq.dec s.label []) [
      | yes e ↦ ground (arith, storage_spec_validate_iff s, storage_loop_iff labels specs)
      | no n ↦ ground (
        arith,
        storage_spec_validate_iff s,
        storage_loop_iff (S.add s.label labels) specs,
        UnseenStorage-add labels s.label specs n,
      )
    ]

    interface_loop_iff :
        (labels : S.Strings) (specs : List InterfaceSpec)
        → (interface_loop E S quote labels specs ≡ none)
          ↔ (All InterfaceOk specs × FreshInterfaces specs × UnseenInterfaces labels specs)
    unfolding interface_loop
    interface_loop_iff labels [] = (λ _. (tt, tt, tt), λ _. refl)
    interface_loop_iff labels (s ∷ specs) = ground (
      arith,
      interface_spec_validate_iff s,
      interface_loop_iff (S.add s.label labels) specs,
      UnseenInterfaces-add labels s.label specs,
    )

    UnseenStorage-new_strings : (specs : List StorageSpec) → UnseenStorage S.new_strings specs
    UnseenStorage-new_strings [] = tt
    UnseenStorage-new_strings (s ∷ specs) =
        (inr (S.contains-new_strings s.label), UnseenStorage-new_strings specs)

    UnseenInterfaces-new_strings :
        (specs : List InterfaceSpec) → UnseenInterfaces S.new_strings specs
    UnseenInterfaces-new_strings [] = tt
    UnseenInterfaces-new_strings (s ∷ specs) =
        (S.contains-new_strings s.label, UnseenInterfaces-new_strings specs)

    -- Validation passes exactly the constraints that are well-formed: sizes are positive, tags and
    -- spaces not empty, interface labels given, and no label is used twice. What the pools are makes no
    -- difference.
    pub allocate_machine_args_validate_iff :
        (a : AllocateMachineArgs)
        → ((allocate_machine_args_validate E S quote a ≡ none) ↔ WellFormed a)
          × ((pool : Text) (not_in_pool : List Text)
              → allocate_machine_args_validate E S quote
                  (record a { pool = pool; not_in_pool = not_in_pool })
                ≡ allocate_machine_args_validate E S quote a)
    unfolding allocate_machine_args_validate
    allocate_machine_args_validate_iff a = (
      ground (
        arith,
        storage_loop_iff S.new_strings a.storage,
        interface_loop_iff S.new_strings a.interfaces,
        no_empty_iff (codes "empty NotSpace constraint") a.not_space,
        UnseenStorage-new_strings a.storage,
        UnseenInterfaces-new_strings a.interfaces,
      ),
      λ pool not_in_pool. refl,
    )
