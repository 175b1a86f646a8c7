-- ===== src/Files/Laws.antt =====
-- The arguments of `AddFile` that pass validation.
use gomaasapi.Prelude.{
  ◌≡◌, refl, ◌≢◌, ◌↔◌, ◌⊎◌, none, some, [], ◌∷◌, arith, nat_eq, list_eq, int_eq, pos,
}
use gomaasapi.Strings.{Text}
use gomaasapi.Strings.Split.{Lacks}
use gomaasapi.Errors.{JujuErrors}
use gomaasapi.Files.{Reader, AddFileArgs, split_dir, add_file_args_validate}

split_dir_iff : (s : Text) → (split_dir s ≡ []) ↔ Lacks b'/' s
unfolding split_dir
split_dir_iff [] = (λ _. tt, λ _. refl)
split_dir_iff (c ∷ s) = ground (arith, split_dir_iff s)

module _ (E : JujuErrors) where
  -- Either the content is given and neither a reader nor a length, or both of these without content.
  abbrev pub OneSource : AddFileArgs E.Err → Type 0
  OneSource a =
      ((content : Text) × (a.content ≡ some content) × (a.reader ≡ none) × (a.length ≡ pos 0))
      ⊎ ((r : Reader E.Err) × (a.content ≡ none) × (a.reader ≡ some r) × (a.length ≢ pos 0))

  -- Validation passes exactly the arguments with a file name that is not empty and holds no slash,
  -- and with one source of the content.
  pub add_file_args_validate_iff :
      (quote : Text → Text) (a : AddFileArgs E.Err)
      → (add_file_args_validate E quote a ≡ none)
        ↔ ((a.filename ≢ []) × Lacks b'/' a.filename × OneSource a)
  unfolding add_file_args_validate
  add_file_args_validate_iff quote a = ground (arith, split_dir_iff a.filename)
