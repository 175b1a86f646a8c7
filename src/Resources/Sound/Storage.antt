-- ===== src/Resources/Sound/Storage.antt =====
-- The reading functions of the other objects do not panic.
use gomaasapi.Prelude.{refl, Option, none, some, list_eq, nat_eq}
use gomaasapi.Strings.{codes}
use gomaasapi.Value.{Members}
use gomaasapi.Http.{Platform}
use gomaasapi.Schema.{Juju}
use gomaasapi.Reading.Sound.{NoPanic, NoPanic-bind, rewrap_step, no_panic}
use gomaasapi.Reading.Sound.Steps.{string_step, int_step, uint_step, list_step, slice_step}
use gomaasapi.Reading.Sound.Lists.{fields_step, NoPanic-items}
use gomaasapi.Resources.Storage.{
  filesystem_fields, filesystem_2_0, filesystem_of, partition_fields, partition_2_0,
  blockdevice_fields, blockdevice_2_0,
}

module _ (P : Platform) (J : Juju P) where
  pub filesystem_2_0-NoPanic : (source : Members P.Float) → NoPanic P (filesystem_2_0 P J source)
  unfolding filesystem_2_0 filesystem_fields codes list_eq nat_eq
  filesystem_2_0-NoPanic source =
      fields_step P J _ _ _ _ _ (λ m h.
        string_step P h _ _ refl (λ fs_type. string_step P h _ _ refl (λ uuid. no_panic P _)))

  filesystem_of-NoPanic : (o : Option (Members P.Float)) → NoPanic P (filesystem_of P J o)
  unfolding filesystem_of
  filesystem_of-NoPanic none = no_panic P _
  filesystem_of-NoPanic (some source) =
      rewrap_step P _ _ _ (filesystem_2_0-NoPanic source) (λ f. no_panic P _)

  pub partition_2_0-NoPanic : (source : Members P.Float) → NoPanic P (partition_2_0 P J source)
  unfolding partition_2_0 partition_fields codes list_eq nat_eq
  partition_2_0-NoPanic source = fields_step P J _ _ _ _ _ (λ m h.
      NoPanic-bind P _ _ (filesystem_of-NoPanic _) (λ filesystem.
        string_step P h _ _ refl (λ resource_uri. int_step P h _ _ refl (λ id.
          string_step P h _ _ refl (λ path. string_step P h _ _ refl (λ used_for.
            uint_step P h _ _ refl (λ size. slice_step P h _ _ refl (λ tags. no_panic P _))))))))

  pub blockdevice_2_0-NoPanic : (source : Members P.Float) → NoPanic P (blockdevice_2_0 P J source)
  unfolding blockdevice_2_0 blockdevice_fields codes list_eq nat_eq
  blockdevice_2_0-NoPanic source = fields_step P J _ _ _ _ _ (λ m h.
      NoPanic-bind P _ _ (filesystem_of-NoPanic _) (λ filesystem. list_step P h _ _ refl (λ sources.
        rewrap_step P _ _ _ (NoPanic-items P J _ _ _ 0 _ partition_2_0-NoPanic) (λ partitions.
          string_step P h _ _ refl (λ resource_uri. int_step P h _ _ refl (λ id.
            string_step P h _ _ refl (λ name. string_step P h _ _ refl (λ path.
              string_step P h _ _ refl (λ used_for. slice_step P h _ _ refl (λ tags.
                uint_step P h _ _ refl (λ block_size.
                  uint_step P h _ _ refl
                    (λ used_size. uint_step P h _ _ refl (λ size. no_panic P _)))))))))))))
