-- ===== src/Allocate.antt =====
-- The constraints of `AllocateMachine` in controller.go: storage and interface specs, their
-- validation, their text forms, and the parameters of the request.
pub mod Validate
use gomaasapi.Prelude.{
  ℕ, ◌≡◌, Bool, true, false, ◌||◌, Option, none, some, List, [], ◌∷◌, ◌++◌, map, if◌then◌else◌,
  ◌==◌, nat_eq, list_eq, ℤ, not_positive,
}
use gomaasapi.Strings.{Text, codes, join}
use gomaasapi.Strings.Decimal.{itoa}
use gomaasapi.Errors.{JujuErrors, not_valid}

-- StorageSpec
pub record StorageSpec : Type 0 where
  pub label : Text
  pub size : ℤ
  pub tags : List Text

-- InterfaceSpec
pub record InterfaceSpec : Type 0 where
  pub label : Text
  pub space : Text

-- AllocateMachineArgs
pub record AllocateMachineArgs : Type 0 where
  pub hostname : Text
  pub system_id : Text
  pub architecture : Text
  pub min_cpu_count : ℤ
  pub min_memory : ℤ
  pub tags : List Text
  pub not_tags : List Text
  pub zone : Text
  pub pool : Text
  pub not_in_zone : List Text
  pub not_in_pool : List Text
  pub storage : List StorageSpec
  pub interfaces : List InterfaceSpec
  pub not_space : List Text
  pub agent_name : Text
  pub comment : Text
  pub dry_run : Bool

-- What the program uses of github.com/juju/collections/set: sets of strings.
pub record StringSet : Type 1 where
  pub Strings : Type 0
  pub new_strings : Strings
  pub add : Text → Strings → Strings
  pub contains : Text → Strings → Bool
  pub contains-new_strings : (s : Text) → contains s new_strings ≡ false
  pub contains-add : (s t : Text) (x : Strings) → contains s (add t x) ≡ (t == s || contains s x)

-- `label:` in front, where there is a label
storage_label : Text → Text
storage_label label = if label == [] then [] else label ++ codes ":"

storage_tags : Text → Text
storage_tags tags = if tags == [] then [] else codes "(" ++ tags ++ codes ")"

-- StorageSpec.String
unfoldable pub storage_spec_string : StorageSpec → Text
unfolding storage_label storage_tags
storage_spec_string s =
    storage_label s.label ++ itoa s.size ++ storage_tags (join s.tags (codes ","))

-- InterfaceSpec.String
unfoldable pub interface_spec_string : InterfaceSpec → Text
interface_spec_string a = a.label ++ codes ":space=" ++ a.space

-- AllocateMachineArgs.storage, interfaces and notSubnets
unfoldable pub storage_text : AllocateMachineArgs → Text
unfolding storage_spec_string
storage_text a = join (map storage_spec_string a.storage) (codes ",")

unfoldable pub interfaces_text : AllocateMachineArgs → Text
unfolding interface_spec_string
interfaces_text a = join (map interface_spec_string a.interfaces) (codes ";")

unfoldable pub not_subnets : AllocateMachineArgs → List Text
not_subnets a = map (λ v. codes "space:" ++ v) a.not_space

-- The validations return nil, here `none`, or an error.
module _ (E : JujuErrors) where
  open E use {Err, new, annotate}

  -- The loop over a list of texts none of which may be empty.
  no_empty : Text → List Text → Option Err
  no_empty message [] = none
  no_empty message (v ∷ vs) =
      if v == [] then some (new (not_valid message)) else no_empty message vs

  -- StorageSpec.Validate
  unfoldable pub storage_spec_validate : StorageSpec → Option Err
  unfolding no_empty
  storage_spec_validate s =
      if not_positive s.size
      then some (new (not_valid (codes "Size value " ++ itoa s.size)))
      else no_empty (codes "empty tag") s.tags

  -- InterfaceSpec.Validate
  unfoldable pub interface_spec_validate : InterfaceSpec → Option Err
  interface_spec_validate a =
      if a.label == []
      then some (new (not_valid (codes "missing Label")))
      else if a.space == []
      then some (new (not_valid (codes "empty Space constraint")))
      else none

  module _ (S : StringSet) (quote : Text → Text) where
    -- The loop over the storage specs, with the labels seen.
    storage_loop : S.Strings → List StorageSpec → Option Err
    storage_loop labels [] = none
    storage_loop labels (s ∷ specs) =
        let plain = storage_loop labels specs in
        let labelled = storage_loop (S.add s.label labels) specs in
        elim (storage_spec_validate s) [
          | some e ↦ some (annotate e (codes "Storage"))
          | none ↦
              if s.label == []
              then plain
              else if S.contains s.label labels
              then some (new (not_valid (codes "reusing storage label " ++ quote s.label)))
              else labelled
        ]

    -- The loop over the interface specs, with the labels seen.
    interface_loop : S.Strings → List InterfaceSpec → Option Err
    interface_loop labels [] = none
    interface_loop labels (s ∷ specs) =
        let more = interface_loop (S.add s.label labels) specs in
        elim (interface_spec_validate s) [
          | some e ↦ some (annotate e (codes "Interfaces"))
          | none ↦
              if S.contains s.label labels
              then some (new (not_valid (codes "reusing interface label " ++ quote s.label)))
              else more
        ]

    or_else : Option Err → Option Err → Option Err
    or_else (some e) next = some e
    or_else none next = next

    -- AllocateMachineArgs.Validate
    unfoldable pub allocate_machine_args_validate : AllocateMachineArgs → Option Err
    unfolding storage_loop interface_loop or_else storage_spec_validate interface_spec_validate
        no_empty
    allocate_machine_args_validate a = or_else (storage_loop S.new_strings a.storage) (
        or_else (interface_loop S.new_strings a.interfaces)
          (no_empty (codes "empty NotSpace constraint") a.not_space))
