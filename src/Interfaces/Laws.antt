-- ===== src/Interfaces/Laws.antt =====
-- The arguments of `LinkSubnet`, the search for a link, and what failed operations leave alone.
use gomaasapi.Prelude.{
  ◌≡◌, refl, sym, ◌∙◌, ◌≢◌, ◌↔◌, ◌⊎◌, inl, inr, true, false, Option, none, some, List, [], ◌∷◌,
  ◌++◌, arith, nat_eq, list_eq, int_eq, ℤ, Result, ok, err, All, Bool-cases, Option-cases, if_elim,
}
use gomaasapi.Strings.{Text}
use gomaasapi.Value.{Value}
use gomaasapi.Errors.Translate.{Cases}
use gomaasapi.Http.{Platform, World}
use gomaasapi.Schema.{Juju}
use gomaasapi.Reading.{Read}
use gomaasapi.Resources.Networks.{Subnet, Link}
use gomaasapi.Resources.Nics.{Interface, read_interface}
use gomaasapi.Controller.{Controller}
use gomaasapi.Interfaces.{
  UpdateInterfaceArgs, LinkSubnetArgs, link_mode_dhcp, link_mode_static, link_mode_link_up,
  links_to, link_for_subnet, link_subnet_args_validate, Outcome, update, link_subnet, unlink_subnet,
  unlink_cases, update_cases, link_cases, invalid, known_mode, validate_options, finish,
  update_from, is_empty, unlink,
}

-- The link is to a subnet with this identifier.
abbrev pub LinksTo : ℤ → Link → Type 0
LinksTo id l = (s : Subnet) × (l.subnet ≡ some s) × (s.id ≡ id)

-- The link found is the first one to a subnet with the identifier.
abbrev pub FirstLink : ℤ → List Link → Link → Type 0
FirstLink id links l =
    (before after : List Link) × (links ≡ before ++ l ∷ after)
    × All (λ k. links_to id k.subnet ≡ false) before
    × LinksTo id l

links_to_lem :
    (id : ℤ) (subnet : Option Subnet)
    → links_to id subnet ≡ true
    → (s : Subnet) × (subnet ≡ some s) × (s.id ≡ id)
unfolding links_to
links_to_lem id none h = cc
links_to_lem id (some s) h = (s, refl, ground arith)

-- `linkForSubnet` finds the first link to a subnet with the identifier, and finds none only where no
-- link is to such a subnet.
link_for_subnet_lem :
    (id : ℤ) (links : List Link)
    → ((link_for_subnet id links ≡ none) × All (λ k. links_to id k.subnet ≡ false) links)
      ⊎ ((l : Link) × (link_for_subnet id links ≡ some l) × FirstLink id links l)
unfolding link_for_subnet
link_for_subnet_lem id [] = inl (refl, tt)
link_for_subnet_lem id (l ∷ links) = elim (Bool-cases (links_to id l.subnet)) [
  | inl e ↦ inr (l, rw e, ([], links, refl, tt, links_to_lem id l.subnet e))
  | inr e ↦ elim (link_for_subnet_lem id links) [
    | inl (h, none_before) ↦ inl (rw e h, (e, none_before))
    | inr (k, h, (before, after, p, q, r)) ↦ inr (k, rw e h, (l ∷ before, after, rw p, (e, q), r))
  ]
]

module _ (P : Platform) where
  open P use {Err}

  -- The address and the gateway are given with the mode `STATIC` only.
  abbrev pub StaticOptions : LinkSubnetArgs → Type 0
  StaticOptions a =
      ((a.ip_address ≡ []) ⊎ (a.mode ≡ link_mode_static))
      × ((a.default_gateway ≡ false) ⊎ (a.mode ≡ link_mode_static))

  validate_options_static :
      (a : LinkSubnetArgs) (s : Subnet) → validate_options P a (some s) ≡ none → StaticOptions a
  unfolding validate_options invalid
  validate_options_static a s h = ground arith

  validate_options_iff :
      (a : LinkSubnetArgs) (o : Option Subnet)
      → (validate_options P a o ≡ none) ↔ (((s : Subnet) × (o ≡ some s)) × StaticOptions a)
  unfolding validate_options invalid
  validate_options_iff a none = (λ h. absurd (cc), λ ((s, e), h). absurd (cc))
  validate_options_iff a (some s) =
      (λ h. ((s, refl), validate_options_static a s h), λ (e, h). ground arith)

  known_mode_iff :
      (mode : Text)
      → (known_mode P mode ≡ true)
        ↔ ((mode ≡ link_mode_dhcp) ⊎ (mode ≡ link_mode_link_up) ⊎ (mode ≡ link_mode_static))
  unfolding known_mode
  known_mode_iff mode = ground arith

  link_subnet_args_validate-known :
      (a : LinkSubnetArgs)
      → known_mode P a.mode ≡ true
      → link_subnet_args_validate P a ≡ validate_options P a a.subnet
  unfolding link_subnet_args_validate
  link_subnet_args_validate-known a e = rw (e, link_subnet_args_validate)

  link_subnet_args_validate-unknown :
      (a : LinkSubnetArgs) → known_mode P a.mode ≡ false → link_subnet_args_validate P a ≢ none
  unfolding link_subnet_args_validate invalid
  link_subnet_args_validate-unknown a e h = ground arith

  -- Validation passes exactly the arguments with one of the three modes and a subnet that give an
  -- address or the default gateway only with the mode `STATIC`.
  pub link_subnet_args_validate_iff :
      (a : LinkSubnetArgs)
      → (link_subnet_args_validate P a ≡ none) ↔ (
          ((a.mode ≡ link_mode_dhcp) ⊎ (a.mode ≡ link_mode_link_up) ⊎ (a.mode ≡ link_mode_static))
          × ((s : Subnet) × (a.subnet ≡ some s))
          × StaticOptions a)
  link_subnet_args_validate_iff a = elim (Bool-cases (known_mode P a.mode)) [
    | inl e ↦ (
      λ h.
          let passed = sym (link_subnet_args_validate-known a e) ∙ h in
          let (given, options) = (validate_options_iff a a.subnet).0 passed in
          ((known_mode_iff a.mode).0 e, given, options),
      λ (m, given, options).
          link_subnet_args_validate-known a e
          ∙ (validate_options_iff a a.subnet).1 (given, options),
    )
    | inr e ↦ (
      λ h. absurd (link_subnet_args_validate-unknown a e h),
      λ (m, given, options). absurd (ground (arith, (known_mode_iff a.mode).1 m)),
    )
  ]

  module _ (J : Juju P) (c : Controller) where
    -- The operation succeeded, or the interface is the one before.
    abbrev pub DoneOrKept : Interface → Outcome P → Type 0
    DoneOrKept i (result, i', w) = (result ≡ ok tt) ⊎ (i' ≡ i)

    update_from-DoneOrKept :
        (i : Interface) (r : Read P Interface) (w : World P)
        → DoneOrKept i (update_from P J c i r w)
    unfolding update_from
    update_from-DoneOrKept i (err e) w = inr refl
    update_from-DoneOrKept i (ok response) w = inl refl

    finish-DoneOrKept :
        (cases : Cases) (i : Interface) (r : Result Err (Value P.Float) × World P)
        → DoneOrKept i (finish P J c cases i r)
    unfolding finish
    finish-DoneOrKept cases i (err e, w) = inr refl
    finish-DoneOrKept cases i (ok source, w) =
        update_from-DoneOrKept i (read_interface P J c.api_version source) w

    unlink-DoneOrKept :
        (i : Interface) (l : Option Link) (w : World P) → DoneOrKept i (unlink P J c i l w)
    unfolding unlink
    unlink-DoneOrKept i none w = inr refl
    unlink-DoneOrKept i (some l) w = finish-DoneOrKept unlink_cases i _

    update-DoneOrKept :
        (a : UpdateInterfaceArgs) (i : Interface) (w : World P) → DoneOrKept i (update P J c a i w)
    unfolding update
    update-DoneOrKept a i w =
        if_elim (DoneOrKept i) (is_empty P J c a a.vlan) _ _ (λ _. inl refl)
          (λ _. finish-DoneOrKept update_cases i _)

    link_subnet-DoneOrKept :
        (a : LinkSubnetArgs) (i : Interface) (w : World P) → DoneOrKept i (link_subnet P J c a i w)
    unfolding link_subnet
    link_subnet-DoneOrKept a i w = elim (Option-cases (link_subnet_args_validate P a)) [
      | inl e ↦ rw (e, link_subnet) (finish-DoneOrKept link_cases i _)
      | inr (f, e) ↦ rw (e, link_subnet) (inr refl)
    ]

    unlink_subnet-DoneOrKept :
        (s : Option Subnet) (i : Interface) (w : World P) → DoneOrKept i (unlink_subnet P J c s i w)
    unfolding unlink_subnet
    unlink_subnet-DoneOrKept none i w = inr refl
    unlink_subnet-DoneOrKept (some s) i w = unlink-DoneOrKept i (link_for_subnet s.id i.links) w

    -- Each operation that changes an interface succeeds, or leaves it as it was.
    pub operations-DoneOrKept :
        (a : UpdateInterfaceArgs) (b : LinkSubnetArgs) (s : Option Subnet) (i : Interface)
        (w : World P)
        → DoneOrKept i (update P J c a i w)
          × DoneOrKept i (link_subnet P J c b i w)
          × DoneOrKept i (unlink_subnet P J c s i w)
    operations-DoneOrKept a b s i w =
        (update-DoneOrKept a i w, link_subnet-DoneOrKept b i w, unlink_subnet-DoneOrKept s i w)
