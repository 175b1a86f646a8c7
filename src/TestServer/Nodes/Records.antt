-- ===== src/TestServer/Nodes/Records.antt =====
-- The record of operations that the test server keeps.
use gomaasapi.Prelude.{
  ◌≡◌, refl, sym, ap, ◌∙◌, Bool, Option, none, some, List, [], ◌∷◌, nat_eq, list_eq, Result, ok,
  err,
}
use gomaasapi.Strings.{Text, codes}
use gomaasapi.Params.{Values}
use gomaasapi.Http.{Platform}
use gomaasapi.Object.Maas.{MaasObject}
use gomaasapi.TestServer.Store.{is_there, keys, has_key, with_key, keys-store, is_there-find}
use gomaasapi.TestServer.Nodes.{
  Server, Answer, add_node_operation, add_nodes_operation, add_to, recorded, acquired,
  acquire_found, with_owner, nodes_acquire_handler, released, nodes_release_handler,
}

module _ (P : Platform) where
  -- The operations of nodes and their values are recorded under the same keys.
  abbrev pub SameKeys : Server P → Type 0
  SameKeys s = keys s.node_operations ≡ keys s.node_operation_request_values

  add_to-SameKeys :
      (id op : Text) (form : Values) (s : Server P) (o : Option (List Text))
      (v : Option (List Values))
      → SameKeys s
      → is_there o ≡ is_there v
      → (s' : Server P) × (add_to P id op form s o v ≡ some s') × SameKeys s'
  unfolding add_to recorded
  add_to-SameKeys id op form s none none h e =
      (_, refl, keys-store id _ _ ∙ ap (with_key id) h ∙ sym (keys-store id _ _))
  add_to-SameKeys id op form s (some ops) (some vs) h e =
      (_, refl, keys-store id _ _ ∙ ap (with_key id) h ∙ sym (keys-store id _ _))
  add_to-SameKeys id op form s none (some vs) h e = absurd (cc)
  add_to-SameKeys id op form s (some ops) none h e = absurd (cc)

  -- With the same keys an operation is recorded, without a panic, and the keys stay the same.
  pub add_node_operation-SameKeys :
      (id op : Text) (form : Values) (s : Server P)
      → SameKeys s
      → (s' : Server P) × (add_node_operation P id op form s ≡ some s') × SameKeys s'
  unfolding add_node_operation
  add_node_operation-SameKeys id op form s h = add_to-SameKeys id op form s _ _ h (
      is_there-find id s.node_operations
      ∙ ap (has_key id) h
      ∙ sym (is_there-find id s.node_operation_request_values))

  -- What a handler leaves, where it does not panic, has the same keys.
  abbrev pub Keeps : Option (Answer P × Server P) → Type 0
  Keeps none = Unit
  Keeps (some (a, s)) = SameKeys s

  module _ (parse_float : Text → Option P.Float) (float_leb : P.Float → P.Float → Bool) where
    acquired-Keeps :
        (form : Values) (key : Text) (n : MaasObject P) (s : Server P) (r : Result P.Err Text)
        → SameKeys s
        → Keeps (acquired P parse_float float_leb form key n s r)
    unfolding acquired
    acquired-Keeps form key n s (err e) h = tt
    acquired-Keeps form key n s (ok id) h =
        let (s', e, k) =
          add_node_operation-SameKeys id (codes "acquire") form (with_owner P key n id s) h in
        rw (e, acquired) k

    acquire_found-Keeps :
        (form : Values) (s : Server P) (found : Option (Text × MaasObject P))
        → SameKeys s
        → Keeps (acquire_found P parse_float float_leb form s found)
    unfolding acquire_found
    acquire_found-Keeps form s none h = h
    acquire_found-Keeps form s (some (key, n)) h = acquired-Keeps form key _ s _ h

    pub nodes_acquire_handler-Keeps :
        (form : Values) (s : Server P)
        → SameKeys s
        → Keeps (nodes_acquire_handler P parse_float float_leb form s)
    unfolding nodes_acquire_handler add_nodes_operation
    nodes_acquire_handler-Keeps form s h = acquire_found-Keeps form _ _ h

  released-Keeps :
      (form : Values) (ids us : List Text) (s : Server P)
      → SameKeys s
      → SameKeys (released P form ids us s).1
  unfolding released
  released-Keeps form ids [] s h = h
  released-Keeps form ids (u ∷ us) s h = h

  pub nodes_release_handler-Keeps :
      (form : Values) (s : Server P) → SameKeys s → SameKeys (nodes_release_handler P form s).1
  unfolding nodes_release_handler add_nodes_operation
  nodes_release_handler-Keeps form s h = released-Keeps form _ _ _ h
