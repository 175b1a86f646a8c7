-- ===== src/Resources/Sound/Networks.antt =====
-- The reading functions of the objects of networks do not panic.
use gomaasapi.Prelude.{◌≡◌, refl, ◌⊎◌, inl, inr, Option, none, some, List, [], ◌∷◌, list_eq, nat_eq}
use gomaasapi.Strings.{codes}
use gomaasapi.Value.{Value, Members}
use gomaasapi.Http.{Platform}
use gomaasapi.Schema.{Juju, any, string_map, Shaped}
use gomaasapi.Reading.Sound.{NoPanic, NoPanic-bind, rewrap_step, no_panic, Safe-returned}
use gomaasapi.Reading.Sound.Steps.{
  string_step, int_step, bool_step, map_step, list_step, slice_step, slice_or_nil_step,
}
use gomaasapi.Reading.Sound.Lists.{fields_step, NoPanic-items}
use gomaasapi.Resources.Networks.{
  Subnet, vlan_fields, vlan_2_0, subnet_fields, subnet_2_0, link_fields, link_2_0, link_subnet_of,
}
use gomaasapi.Resources.Fabrics.{
  space_fields, space_2_0, fabric_fields, fabric_2_0, both, static_route_fields, static_route_2_0,
}
use gomaasapi.Resources.Nics.{interface_fields, interface_2_0, interface_vlan_of}

module _ (P : Platform) (J : Juju P) where
  pub vlan_2_0-NoPanic : (source : Members P.Float) → NoPanic P (vlan_2_0 P J source)
  unfolding vlan_2_0 vlan_fields codes list_eq nat_eq
  vlan_2_0-NoPanic source = fields_step P J _ _ _ _ _ (λ m h.
      string_step P h _ _ refl (λ resource_uri. int_step P h _ _ refl (λ id.
        string_step P h _ _ refl (λ fabric.
          int_step P h _ _ refl (λ vid.
            int_step P h _ _ refl (λ mtu. bool_step P h _ _ refl (λ dhcp. no_panic P _)))))))

  pub subnet_2_0-NoPanic : (source : Members P.Float) → NoPanic P (subnet_2_0 P J source)
  unfolding subnet_2_0 subnet_fields codes list_eq nat_eq
  subnet_2_0-NoPanic source = fields_step P J _ _ _ _ _ (λ m h.
      map_step P h _ _ refl (λ vlan_source. rewrap_step P _ _ _ (vlan_2_0-NoPanic _) (λ vlan.
        string_step P h _ _ refl (λ resource_uri. int_step P h _ _ refl (λ id.
          string_step P h _ _ refl (λ name. string_step P h _ _ refl (λ space.
            string_step P h _ _ refl
              (λ cidr. slice_or_nil_step P h _ _ refl (λ dns_servers. no_panic P _)))))))))

  link_subnet_of-NoPanic :
      (o : Option (Value P.Float))
      → (o ≡ none) ⊎ ((v : Value P.Float) × (o ≡ some v) × Shaped (string_map any) v)
      → NoPanic P (link_subnet_of P J o)
  unfolding link_subnet_of
  link_subnet_of-NoPanic o (inl e) = rw e (no_panic P _)
  link_subnet_of-NoPanic o (inr (v, e, (m, e', h))) =
      rw (e, link_subnet_of)
        (rw e' (rewrap_step P _ _ _ (subnet_2_0-NoPanic m) (λ s. no_panic P _)))

  pub link_2_0-NoPanic : (source : Members P.Float) → NoPanic P (link_2_0 P J source)
  unfolding link_2_0 link_fields codes list_eq nat_eq
  link_2_0-NoPanic source = fields_step P J _ _ _ _ _ (λ m h.
      NoPanic-bind P _ _ (link_subnet_of-NoPanic _ h.shape.1.1.0) (λ subnet.
        int_step P h _ _ refl (λ id.
          string_step P h _ _ refl
            (λ mode. string_step P h _ _ refl (λ ip_address. no_panic P _)))))

  pub space_2_0-NoPanic : (source : Members P.Float) → NoPanic P (space_2_0 P J source)
  unfolding space_2_0 space_fields codes list_eq nat_eq
  space_2_0-NoPanic source = fields_step P J _ _ _ _ _ (λ m h. list_step P h _ _ refl (λ sources.
      rewrap_step P _ _ _ (NoPanic-items P J _ _ _ 0 _ subnet_2_0-NoPanic) (λ subnets.
        string_step P h _ _ refl (λ resource_uri.
          int_step P h _ _ refl (λ id. string_step P h _ _ refl (λ name. no_panic P _))))))

  pub fabric_2_0-NoPanic : (source : Members P.Float) → NoPanic P (fabric_2_0 P J source)
  unfolding fabric_2_0 fabric_fields codes list_eq nat_eq
  fabric_2_0-NoPanic source = fields_step P J _ _ _ _ _ (λ m h. list_step P h _ _ refl (λ sources.
      rewrap_step P _ _ _ (NoPanic-items P J _ _ _ 0 _ vlan_2_0-NoPanic) (λ vlans.
        string_step P h _ _ refl (λ resource_uri.
          int_step P h _ _ refl (λ id. string_step P h _ _ refl (λ name. no_panic P _))))))

  both-NoPanic : (l : List Subnet) → NoPanic P (both P J l)
  unfolding both
  both-NoPanic (s ∷ t ∷ []) = no_panic P _
  both-NoPanic l = Safe-returned P _ _

  pub static_route_2_0-NoPanic :
      (source : Members P.Float) → NoPanic P (static_route_2_0 P J source)
  unfolding static_route_2_0 static_route_fields codes list_eq nat_eq
  static_route_2_0-NoPanic source = fields_step P J _ _ _ _ _ (λ m h.
      rewrap_step P _ _ _ (NoPanic-items P J _ _ _ 0 _ subnet_2_0-NoPanic) (λ subnets.
        NoPanic-bind P _ _ (both-NoPanic _) (λ ends. string_step P h _ _ refl (λ resource_uri.
          int_step P h _ _ refl (λ id.
            string_step P h _ _ refl
              (λ gateway_ip. int_step P h _ _ refl (λ metric. no_panic P _)))))))

  interface_vlan_of-NoPanic : (o : Option (Members P.Float)) → NoPanic P (interface_vlan_of P J o)
  unfolding interface_vlan_of
  interface_vlan_of-NoPanic none = no_panic P _
  interface_vlan_of-NoPanic (some source) =
      rewrap_step P _ _ _ (vlan_2_0-NoPanic source) (λ v. no_panic P _)

  pub interface_2_0-NoPanic : (source : Members P.Float) → NoPanic P (interface_2_0 P J source)
  unfolding interface_2_0 interface_fields codes list_eq nat_eq
  interface_2_0-NoPanic source = fields_step P J _ _ _ _ _ (λ m h.
      NoPanic-bind P _ _ (interface_vlan_of-NoPanic _) (λ vlan. list_step P h _ _ refl (λ sources.
        rewrap_step P _ _ _ (NoPanic-items P J _ _ _ 0 _ link_2_0-NoPanic) (λ links.
          string_step P h _ _ refl (λ resource_uri. int_step P h _ _ refl (λ id.
            string_step P h _ _ refl (λ name. string_step P h _ _ refl (λ type_name.
              bool_step P h _ _ refl (λ enabled. slice_or_nil_step P h _ _ refl (λ tags.
                int_step P h _ _ refl (λ effective_mtu.
                  slice_step P h _ _ refl
                    (λ parents. slice_step P h _ _ refl (λ children. no_panic P _)))))))))))))
