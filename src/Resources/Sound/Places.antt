-- ===== src/Resources/Sound/Places.antt =====
-- The reading functions of zones, pools, domains and boot resources do not panic.
use gomaasapi.Prelude.{refl, inl, inr, list_eq, nat_eq}
use gomaasapi.Strings.{codes}
use gomaasapi.Value.{Value, Members}
use gomaasapi.Http.{Platform}
use gomaasapi.Schema.{Juju, nil_or, force_int, Shaped}
use gomaasapi.Reading.Sound.{NoPanic, NoPanic-bind, no_panic, at-Shaped}
use gomaasapi.Reading.Sound.Steps.{string_step, int_step, bool_step}
use gomaasapi.Reading.Sound.Lists.{fields_step}
use gomaasapi.Resources.Places.{
  zone_fields, zone_2_0, pool_fields, pool_2_0, ttl_of, domain_fields, read_domain,
  boot_resource_fields, boot_resource_2_0,
}

module _ (P : Platform) (J : Juju P) where
  pub zone_2_0-NoPanic : (source : Members P.Float) → NoPanic P (zone_2_0 P J source)
  unfolding zone_2_0 zone_fields codes list_eq nat_eq
  zone_2_0-NoPanic source = fields_step P J _ _ _ _ _ (λ m h. string_step P h _ _ refl (λ name.
      string_step P h _ _ refl
        (λ description. string_step P h _ _ refl (λ resource_uri. no_panic P _))))

  pub pool_2_0-NoPanic : (source : Members P.Float) → NoPanic P (pool_2_0 P J source)
  unfolding pool_2_0 pool_fields codes list_eq nat_eq
  pool_2_0-NoPanic source = fields_step P J _ _ _ _ _ (λ m h. string_step P h _ _ refl (λ name.
      string_step P h _ _ refl
        (λ description. string_step P h _ _ refl (λ resource_uri. no_panic P _))))

  ttl_of-NoPanic : (v : Value P.Float) → Shaped (nil_or force_int) v → NoPanic P (ttl_of P J v)
  unfolding ttl_of
  ttl_of-NoPanic v (inl e) = rw e (no_panic P _)
  ttl_of-NoPanic v (inr (inl (n, e))) = rw e (no_panic P _)
  ttl_of-NoPanic v (inr (inr h)) = absurd h

  pub read_domain-NoPanic : (source : Members P.Float) → NoPanic P (read_domain P J source)
  unfolding read_domain domain_fields codes list_eq nat_eq
  read_domain-NoPanic source = fields_step P J _ _ _ _ _ (λ m h.
      NoPanic-bind P _ _
        (ttl_of-NoPanic _
          (at-Shaped (codes "ttl") (nil_or force_int) (domain_fields P J) m refl h.shape))
        (λ ttl. bool_step P h _ _ refl (λ authoritative. int_step P h _ _ refl (λ id.
          string_step P h _ _ refl (λ name.
            int_step P h _ _ refl (λ resource_record_count.
              string_step P h _ _ refl (λ resource_uri. no_panic P _)))))))

  pub boot_resource_2_0-NoPanic :
      (source : Members P.Float) → NoPanic P (boot_resource_2_0 P J source)
  unfolding boot_resource_2_0 boot_resource_fields codes list_eq nat_eq
  boot_resource_2_0-NoPanic source = fields_step P J _ _ _ _ _ (λ m h.
      string_step P h _ _ refl (λ resource_uri. int_step P h _ _ refl (λ id.
        string_step P h _ _ refl (λ name. string_step P h _ _ refl (λ type_name.
          string_step P h _ _ refl (λ architecture.
            string_step P h _ _ refl
              (λ sub_arches. string_step P h _ _ refl (λ kernel_flavor. no_panic P _))))))))
