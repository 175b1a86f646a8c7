-- ===== src/TestServer/Nodes/Laws.antt =====
-- Which node is found, and who owns the nodes of the test server.
use gomaasapi.Prelude.{
  ◌≡◌, ◌≢◌, refl, sym, ap, ◌∙◌, ◌⊎◌, inl, inr, Bool, true, false, not, ◌&&◌, Option, none, some,
  List, [], ◌∷◌, ◌++◌, if◌then◌else◌, ◌==◌, nat_eq, list_eq, arith, All, Bool-cases,
}
use gomaasapi.Strings.{Text, codes}
use gomaasapi.Params.{Values, values_of}
use gomaasapi.Http.{Platform}
use gomaasapi.Object.Maas.{MaasObject}
use gomaasapi.TestServer.Store.{
  Store, find, remove, is_there, keys, has_key, is_there-find, find-remove_same, find-remove_other,
}
use gomaasapi.TestServer.Nodes.{
  unknown_nodes, Server, Answer, answer, add_nodes_operation, matches, free_node, unknown,
  release_all, released, nodes_release_handler,
}
use gomaasapi.TestServer.Nodes.Matching.{Passes, matches_iff}

module _ (P : Platform) where
  module _ (parse_float : Text → Option P.Float) (float_leb : P.Float → P.Float → Bool) where
    -- A node that is not to be taken: somebody owns it, or it does not pass the filter.
    abbrev pub PassedOver : Values → Store Bool → Text × MaasObject P → Type 0
    PassedOver filter owned (id, n) =
        (is_there (find id owned) ≡ true) ⊎ ¬ Passes P parse_float float_leb filter n

    passed_over :
        (filter : Values) (owned : Store Bool) (id : Text) (n : MaasObject P)
        → (not (is_there (find id owned)) && matches P parse_float float_leb filter n) ≡ false
        → PassedOver filter owned (id, n)
    passed_over filter owned id n h = elim (Bool-cases (is_there (find id owned))) [
      | inl e ↦ inl e
      | inr e ↦
          inr (λ p.
            let q = (matches_iff P parse_float float_leb filter n).1 p in absurd (ground arith))
    ]

    -- The node that is found is the first that nobody owns and that passes the filter: its host name,
    -- zone, tag names and architecture (up to the slash) are the wanted ones, and its memory and
    -- number of cores at least the wanted ones, where they are given. None is found only where each
    -- node is owned or does not pass.
    pub free_node_lem :
        (filter : Values) (owned : Store Bool) (nodes : Store (MaasObject P))
        → ((free_node P parse_float float_leb filter owned nodes ≡ none)
            × All (PassedOver filter owned) nodes)
          ⊎ ((id : Text) × (n : MaasObject P) × (before after : Store (MaasObject P)) × (free_node P
                  parse_float float_leb filter owned nodes
                ≡ some (id, n))
              × (nodes ≡ before ++ (id, n) ∷ after)
              × (is_there (find id owned) ≡ false)
              × Passes P parse_float float_leb filter n
              × All (PassedOver filter owned) before)
    unfolding free_node
    free_node_lem filter owned [] = inl (refl, tt)
    free_node_lem filter owned ((id, n) ∷ nodes) =
        elim (Bool-cases
          (not (is_there (find id owned)) && matches P parse_float float_leb filter n)) [
            | inl e ↦
                let passes = (matches_iff P parse_float float_leb filter n).0 (ground arith) in
                inr (id, n, [], nodes, rw e refl, refl, ground arith, passes, tt)
            | inr e ↦
                let over = passed_over filter owned id n e in
                elim (free_node_lem filter owned nodes) [
                  | inl (h, others) ↦ inl (rw e h, (over, others))
                  | inr (id', m, before, after, h, split, free, good, others) ↦ inr (
                    id',
                    m,
                    (id, n) ∷ before,
                    after,
                    rw e h,
                    rw split refl,
                    free,
                    good,
                    (over, others),
                  )
                ]
          ]

  not_there : {A : Type 0} (o : Option A) → is_there o ≡ false → o ≡ none
  not_there none h = refl
  not_there (some a) h = absurd (cc)

  either_none : {A : Type 0} (b : Bool) (o : Option A) → o ≡ none → (if b then none else o) ≡ none
  either_none true o h = refl
  either_none false o h = h

  removed_or_left :
      (k id : Text) (b : Bool) (owned : Store Bool)
      → (if b then none else find id (remove k owned))
        ≡ (if (if k == id then true else b) then none else find id owned)
  removed_or_left k id b owned = elim (Bool-cases (k == id)) [
    | inl e ↦
        let same : k ≡ id = ground arith in
        rw e (either_none b _ (rw same (find-remove_same id owned)))
    | inr e ↦ rw (e, find-remove_other k id owned e) refl
  ]

  never_owned :
      (k id : Text) (b : Bool) (owned : Store Bool)
      → is_there (find k owned) ≡ false
      → (if b then none else find id owned)
        ≡ (if (if k == id then true else b) then none else find id owned)
  never_owned k id b owned h = elim (Bool-cases (k == id)) [
    | inl e ↦
        let same : k ≡ id = ground arith in rw e (either_none b _ (rw (sym same) (not_there _ h)))
    | inr e ↦ rw e refl
  ]

  -- Who owns a node after a release: nobody, if it is among those to release, or else as before.
  pub release_all_lem :
      (ids : List Text) (nodes : Store (MaasObject P)) (owned : Store Bool) (id : Text)
      → find id (release_all P ids nodes owned).1 ≡ (if has_key id ids then none else find id owned)
  unfolding release_all
  release_all_lem [] nodes owned id = refl
  release_all_lem (k ∷ ids) nodes owned id = elim (Bool-cases (is_there (find k owned))) [
    | inl e ↦ rw e (
        release_all_lem ids nodes (remove k owned) id ∙ removed_or_left k id (has_key id ids) owned)
    | inr e ↦ rw e (release_all_lem ids nodes owned id ∙ never_owned k id (has_key id ids) owned e)
  ]

  -- The nodes that are missing are the named ones that the server does not have.
  has_key-unknown :
      (ids : List Text) (nodes : Store (MaasObject P)) (id : Text)
      → has_key id (unknown P ids nodes) ≡ (has_key id ids && not (has_key id (keys nodes)))
  unfolding unknown
  has_key-unknown [] nodes id = refl
  has_key-unknown (k ∷ ids) nodes id =
      let there = is_there-find k nodes in
      let rest = has_key-unknown ids nodes id in
      elim (Bool-cases (is_there (find k nodes))) [
        | inl e ↦
            let known : has_key k (keys nodes) ≡ true = sym there ∙ e in
            rw e (
              rest ∙ elim (Bool-cases (k == id)) [
                | inl f ↦
                    let same : k ≡ id = ground arith in
                    let h : has_key id (keys nodes) ≡ true = rw (← same) known in
                    rw (f, h) (ground arith)
                | inr f ↦ rw f refl
              ])
        | inr e ↦
            let missing : has_key k (keys nodes) ≡ false = sym there ∙ e in
            rw e (elim (Bool-cases (k == id)) [
              | inl f ↦
                  let same : k ≡ id = ground arith in
                  let h : has_key id (keys nodes) ≡ false = rw (← same) missing in rw (f, h) refl
              | inr f ↦ rw f rest
            ])
      ]

  each_known :
      (ids : List Text) (nodes : Store (MaasObject P))
      → unknown P ids nodes ≡ []
      → All (λ id. has_key id (keys nodes) ≡ true) ids
  unfolding unknown
  each_known [] nodes h = tt
  each_known (k ∷ ids) nodes h = elim (Bool-cases (is_there (find k nodes))) [
    | inl e ↦
        let rest : unknown P ids nodes ≡ [] = sym (rw e refl) ∙ h in
        (sym (is_there-find k nodes) ∙ e, each_known ids nodes rest)
    | inr e ↦
        let more : unknown P (k ∷ ids) nodes ≡ k ∷ unknown P ids nodes = rw e refl in
        let both : k ∷ unknown P ids nodes ≡ [] = sym more ∙ h in absurd cc
  ]

  -- The answer to a release of the nodes `ids`, and what it leaves: an error that lists the ones that
  -- the server does not have, and no change; or, where it has them all, they are given up, and no
  -- others.
  abbrev pub Outcome : List Text → Server P → Answer P × Server P → Type 0
  Outcome ids s (a, s') =
      ((missing : List Text) × (missing ≢ [])
        × ((id : Text) → has_key id missing ≡ (has_key id ids && not (has_key id (keys s.nodes))))
        × (a ≡ answer P 400 (unknown_nodes missing))
        × (s'.owned_nodes ≡ s.owned_nodes)
        × (s'.nodes ≡ s.nodes))
      ⊎ (All (λ id. has_key id (keys s.nodes) ≡ true) ids
          × (a.status ≡ 200)
          × ((id : Text)
              → find id s'.owned_nodes ≡ (if has_key id ids then none else find id s.owned_nodes))
          × (s'.nodes ≡ s.nodes))

  released_lem :
      (form : Values) (ids missing : List Text) (s : Server P)
      → unknown P ids s.nodes ≡ missing
      → Outcome ids s (released P form ids missing s)
  unfolding released
  released_lem form ids [] s h =
      inr (each_known ids s.nodes h, refl, λ id. release_all_lem ids s.nodes s.owned_nodes id, refl)
  released_lem form ids (u ∷ us) s h = inl (
    u ∷ us,
    λ e. absurd (cc),
    λ id. ap (has_key id) (sym h) ∙ has_key-unknown ids s.nodes id,
    refl,
    refl,
    refl,
  )

  -- A release that names a node that the server does not have is refused, with exactly those nodes
  -- listed, and no node changes its owner or leaves the server; any other gives up exactly the nodes
  -- that it names.
  pub nodes_release_handler-Outcome :
      (form : Values) (s : Server P)
      → Outcome (values_of (codes "nodes") form) s (nodes_release_handler P form s)
  unfolding nodes_release_handler add_nodes_operation
  nodes_release_handler-Outcome form s =
      released_lem form _ _ (add_nodes_operation P (codes "release") form s) refl
