-- ===== src/TestServer/Tags/Laws.antt =====
-- The tags of the nodes after `update_nodes`.
use mathlib.Core.Path.{subst}
use gomaasapi.Prelude.{
  ℕ, ◌≡◌, refl, sym, ◌∙◌, Bool, true, false, not, ◌&&◌, ◌||◌, List, [], ◌∷◌, ◌++◌, length,
  if◌then◌else◌, ◌==◌, nat_eq, list_eq, Bool-cases, Option-cases, inl, inr, arith, contains,
  ==_refl,
}
use gomaasapi.Strings.{Text, codes}
use gomaasapi.Strings.Counts.{times, times-append}
use gomaasapi.Params.{Values}
use gomaasapi.Http.{Platform}
use gomaasapi.Object.Maas.{MaasObject}
use gomaasapi.TestServer.Store.{find, is_there, find-store_same, find-store_other}
use gomaasapi.TestServer.Devices.{get_values}
use gomaasapi.TestServer.Tags.{
  TagServer, other_tags, values_or_nil, tags_of, retagged, each_node, update_nodes, tag_answer,
  add_remove_count,
}

times-other_tags : (name : Text) (l : List Text) → times name (other_tags name l) ≡ 0
unfolding other_tags
times-other_tags name [] = refl
times-other_tags name (tag ∷ l) = ground (arith, times-other_tags name l)

times-other_tags_kept :
    (name other : Text) (l : List Text)
    → (other == name) ≡ false
    → times other (other_tags name l) ≡ times other l
unfolding other_tags
times-other_tags_kept name other [] h = refl
times-other_tags_kept name other (tag ∷ l) h = elim (Bool-cases (tag == name)) [
  | inl e ↦
      let p : tag ≡ name = ground arith in
      let distinct : (tag == other) ≡ false = ground arith in
      rw (e, distinct) (times-other_tags_kept name other l h)
  | inr e ↦ rw e (rw (times-other_tags_kept name other l h) refl)
]

-- What `update_nodes` makes of the tags of a node that is added
abbrev with_tag : Text → List Text → List Text
with_tag name tags = other_tags name tags ++ name ∷ []

times-with_tag : (name : Text) (l : List Text) → times name (with_tag name l) ≡ 1
times-with_tag name l =
    times-append name (other_tags name l) (name ∷ [])
    ∙ rw (times-other_tags name l, ==_refl name) (omega arith)

times-with_tag_kept :
    (name other : Text) (l : List Text)
    → (other == name) ≡ false
    → times other (with_tag name l) ≡ times other l
times-with_tag_kept name other l h =
    let distinct : (name == other) ≡ false = ground arith in
    times-append other (other_tags name l) (name ∷ [])
    ∙ rw (times-other_tags_kept name other l h, distinct) (omega arith)

both_true : (a b : Bool) → (a && b) ≡ true → (a ≡ true) × (b ≡ true)
both_true a b h = ground arith

if_same : (b : Bool) (n : ℕ) → (if b then n else n) ≡ n
if_same true n = refl
if_same false n = refl

module _ (P : Platform) where
  -- Whether the server has all of these nodes
  abbrev pub has_nodes : List Text → TagServer P → Bool
  has_nodes [] s = true
  has_nodes (id ∷ ids) s = is_there (find id s.nodes) && has_nodes ids s

  tags_of-retagged :
      (change : List Text → List Text) (id : Text) (n : MaasObject P) (s : TagServer P)
      → tags_of P id (retagged P change id n s) ≡ change (tags_of P id s)
  unfolding retagged
  tags_of-retagged change id n s =
      rw (tags_of, find-store_same id (change (tags_of P id s)) s.tags_per_node) refl

  tags_of-retagged_other :
      (change : List Text → List Text) (id other : Text) (n : MaasObject P) (s : TagServer P)
      → (id == other) ≡ false
      → tags_of P other (retagged P change id n s) ≡ tags_of P other s
  unfolding retagged
  tags_of-retagged_other change id other n s h =
      rw (tags_of, find-store_other id other (change (tags_of P id s)) s.tags_per_node h) refl

  is_there-retagged :
      (change : List Text → List Text) (id other : Text) (n : MaasObject P) (s : TagServer P)
      → is_there (find other s.nodes) ≡ true
      → is_there (find other (retagged P change id n s).nodes) ≡ true
  unfolding retagged
  is_there-retagged change id other n s h = elim (Bool-cases (id == other)) [
    | inl e ↦ let p : id ≡ other = ground arith in rw (sym p, find-store_same id _ s.nodes) refl
    | inr e ↦ rw (find-store_other id other _ s.nodes e) h
  ]

  has_nodes-retagged :
      (change : List Text → List Text) (id : Text) (n : MaasObject P) (ids : List Text)
      (s : TagServer P)
      → has_nodes ids s ≡ true
      → has_nodes ids (retagged P change id n s) ≡ true
  has_nodes-retagged change id n [] s h = refl
  has_nodes-retagged change id n (other ∷ ids) s h =
      let (here, rest) = both_true (is_there (find other s.nodes)) (has_nodes ids s) h in
      rw (is_there-retagged change id other n s here) (has_nodes-retagged change id n ids s rest)

  module _ (change : List Text → List Text) where
    each_node-cons :
        (id : Text) (ids : List Text) (s : TagServer P)
        → is_there (find id s.nodes) ≡ true
        → (n : MaasObject P) × (each_node P change (id ∷ ids) s
            ≡ each_node P change ids (retagged P change id n s))
    unfolding each_node
    each_node-cons id ids s h = elim (Option-cases (find id s.nodes)) [
      | inl e ↦ absurd (ground arith)
      | inr (n, e) ↦ (n, rw (each_node, e) refl)
    ]

    each_node-done :
        (ids others : List Text) (s : TagServer P)
        → has_nodes ids s ≡ true
        → has_nodes others s ≡ true
        → ((each_node P change ids s).0 ≡ true)
          × (has_nodes others (each_node P change ids s).1 ≡ true)
    unfolding each_node
    each_node-done [] others s h k = (refl, k)
    each_node-done (id ∷ ids) others s h k =
        let (here, rest) = both_true (is_there (find id s.nodes)) (has_nodes ids s) h in
        let (n, e) = each_node-cons id ids s here in
        subst (λ r. (r.0 ≡ true) × (has_nodes others r.1 ≡ true)) (sym e)
          (each_node-done ids others (retagged P change id n s)
            (has_nodes-retagged change id n ids s rest) (has_nodes-retagged change id n others s k))

    -- A count that the change sets
    each_node-set :
        (tag : Text) (c : ℕ)
        → ((l : List Text) → times tag (change l) ≡ c)
        → (ids : List Text) (s : TagServer P) (id : Text) → has_nodes ids s ≡ true
        → times tag (tags_of P id (each_node P change ids s).1)
          ≡ (if contains ids id then c else times tag (tags_of P id s))
    unfolding each_node
    each_node-set tag c sets [] s id h = refl
    each_node-set tag c sets (i ∷ ids) s id h =
        let (here, rest) = both_true (is_there (find i s.nodes)) (has_nodes ids s) h in
        let (n, e) = each_node-cons i ids s here in
        let later =
          each_node-set tag c sets ids (retagged P change i n s) id
            (has_nodes-retagged change i n ids s rest) in
        subst
          (λ r.
            times tag (tags_of P id r.1)
            ≡ (if contains (i ∷ ids) id then c else times tag (tags_of P id s)))
          (sym e)
          (later ∙ elim (Bool-cases (i == id)) [
            | inl f ↦
                let p : i ≡ id = ground arith in
                let first : contains (i ∷ ids) id ≡ true = ground arith in
                rw (first, sym p, tags_of-retagged change i n s, sets (tags_of P i s))
                  (if_same (contains ids i) c)
            | inr f ↦
                let later_only : contains (i ∷ ids) id ≡ contains ids id = ground arith in
                rw (later_only, tags_of-retagged_other change i id n s f) refl
          ])

    -- A count that the change keeps
    each_node-keeps :
        (tag : Text)
        → ((l : List Text) → times tag (change l) ≡ times tag l)
        → (ids : List Text) (s : TagServer P) (id : Text) → has_nodes ids s ≡ true
        → times tag (tags_of P id (each_node P change ids s).1) ≡ times tag (tags_of P id s)
    unfolding each_node
    each_node-keeps tag keeps [] s id h = refl
    each_node-keeps tag keeps (i ∷ ids) s id h =
        let (here, rest) = both_true (is_there (find i s.nodes)) (has_nodes ids s) h in
        let (n, e) = each_node-cons i ids s here in
        let later =
          each_node-keeps tag keeps ids (retagged P change i n s) id
            (has_nodes-retagged change i n ids s rest) in
        subst (λ r. times tag (tags_of P id r.1) ≡ times tag (tags_of P id s)) (sym e)
          (later ∙ elim (Bool-cases (i == id)) [
            | inl f ↦
                let p : i ≡ id = ground arith in
                rw (sym p, tags_of-retagged change i n s) (keeps (tags_of P i s))
            | inr f ↦ rw (tags_of-retagged_other change i id n s f) refl
          ])

  -- Where a node is to be added or removed and the server has all that are named, `update_nodes`
  -- succeeds and reports how many are named. Then the nodes that are removed do not have the tag, the
  -- others that are added have it once, and all else is as before: the tag on any other node, and
  -- every other tag.
  pub update_nodes_lem :
      (name : Text) (values : Values) (s : TagServer P)
      → (is_there (get_values values (codes "add"))
          || is_there (get_values values (codes "remove")))
        ≡ true
      → has_nodes (values_or_nil (get_values values (codes "add"))) s ≡ true
      → has_nodes (values_or_nil (get_values values (codes "remove"))) s ≡ true
      → (s' : TagServer P) × (update_nodes P name values s ≡ (
        tag_answer P 200 (
            add_remove_count
              (length (values_or_nil (get_values values (codes "add"))))
              (length (values_or_nil (get_values values (codes "remove"))))),
        s',
      ))
        × ((id tag : Text)
            → times tag (tags_of P id s') ≡ (
                if not (tag == name)
                then times tag (tags_of P id s)
                else if contains (values_or_nil (get_values values (codes "remove"))) id
                then 0
                else if contains (values_or_nil (get_values values (codes "add"))) id
                then 1
                else times tag (tags_of P id s)))
  unfolding update_nodes
  update_nodes_lem name values s given has_add has_del =
      let add_nodes = values_or_nil (get_values values (codes "add")) in
      let del_nodes = values_or_nil (get_values values (codes "remove")) in
      let s' = (each_node P (with_tag name) add_nodes s).1 in
      let s'' = (each_node P (other_tags name) del_nodes s').1 in
      let (all_added, has_del') =
        each_node-done (with_tag name) add_nodes del_nodes s has_add has_del in
      let (all_removed, _) = each_node-done (other_tags name) del_nodes [] s' has_del' refl in
      let asked : (not (is_there (get_values values (codes "add")))
            && not (is_there (get_values values (codes "remove"))))
          ≡ false =
        ground arith in
      (
        s'',
        rw (asked, all_added, all_removed) refl,
        λ id tag. elim (Bool-cases (tag == name)) [
          | inl e ↦
              let p : tag ≡ name = ground arith in
              rw (e, p)
                (each_node-set (other_tags name) name 0 (times-other_tags name) del_nodes s' id
                    has_del'
                  ∙ rw
                      (each_node-set (with_tag name) name 1 (times-with_tag name) add_nodes s id
                        has_add)
                      refl)
          | inr e ↦ rw e (
              each_node-keeps (other_tags name) tag (λ l. times-other_tags_kept name tag l e)
                del_nodes s' id has_del'
              ∙ each_node-keeps (with_tag name) tag (λ l. times-with_tag_kept name tag l e)
                  add_nodes s id has_add)
        ],
      )
