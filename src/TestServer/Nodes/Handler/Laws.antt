-- ===== src/TestServer/Nodes/Handler/Laws.antt =====
-- The states that the test server reaches keep their record of operations consistent.
use mathlib.Core.Path.{subst}
use gomaasapi.Prelude.{
  ◌≡◌, refl, Bool, ◌&&◌, Option, some, [], ◌==◌, nat_eq, list_eq, if_elim, Option-cases, inl, inr,
}
use gomaasapi.Strings.{Text, codes}
use gomaasapi.Params.{Values}
use gomaasapi.Http.{Platform}
use gomaasapi.Object.{JsonObject}
use gomaasapi.Object.Maas.{MaasObject}
use gomaasapi.TestServer.Store.{find, store}
use gomaasapi.TestServer.Nodes.{
  Target, top, node_at, elsewhere, Request, Server, clear, Answer, add_node_operation,
}
use gomaasapi.TestServer.Nodes.Records.{
  SameKeys, add_node_operation-SameKeys, Keeps, nodes_acquire_handler-Keeps,
  nodes_release_handler-Keeps,
}
use gomaasapi.TestServer.Nodes.Handler.{
  get_node, let_go, known_operation, post_node, found_node, node_handler, nodes_top_level_handler,
  nodes_handler,
}

module _ (P : Platform) (details_text : Text → Text)
    (interfaces_of : Text → JsonObject P.Float) where
  let_go-SameKeys :
      (op id : Text) (s : Server P)
      → SameKeys P s
      → SameKeys P (let_go P details_text interfaces_of op id s)
  unfolding let_go
  let_go-SameKeys op id s h = if_elim (SameKeys P) (op == codes "release") _ _ (λ e. h) (λ e. h)

  post_node-Keeps :
      (op id : Text) (form : Values) (n : MaasObject P) (s : Server P)
      → SameKeys P s
      → Keeps P (post_node P details_text interfaces_of op id form n s)
  unfolding post_node
  post_node-Keeps op id form n s h =
      let (s', e, k) = add_node_operation-SameKeys P id op form s h in
      if_elim (Keeps P) (known_operation P details_text interfaces_of op) _ _
        (λ known. rw (e, post_node) (let_go-SameKeys op id s' k)) (λ other. h)

  get_node-SameKeys :
      (op id : Text) (n : MaasObject P) (s : Server P)
      → SameKeys P s
      → SameKeys P (get_node P details_text interfaces_of op id n s).1
  unfolding get_node
  get_node-SameKeys op id n s h =
      if_elim (λ (a, s'). SameKeys P s') (op == []) _ _ (λ e. h)
        (λ e. if_elim (λ (a, s'). SameKeys P s') (op == codes "details") _ _ (λ e. h) (λ e. h))

  found_node-Keeps :
      (r : Request) (id : Text) (n : MaasObject P) (s : Server P)
      → SameKeys P s
      → Keeps P (found_node P details_text interfaces_of r id n s)
  unfolding found_node
  found_node-Keeps r id n s h =
      if_elim (Keeps P) (r.method == codes "GET") _ _ (λ e. get_node-SameKeys r.op id n s h)
        (λ e.
          if_elim (Keeps P) (r.method == codes "POST") _ _
            (λ e. post_node-Keeps r.op id r.form n s h)
            (λ e. if_elim (Keeps P) (r.method == codes "DELETE") _ _ (λ e. h) (λ e. h)))

  node_handler-Keeps :
      (r : Request) (id : Text) (s : Server P)
      → SameKeys P s
      → Keeps P (node_handler P details_text interfaces_of r id s)
  unfolding node_handler
  node_handler-Keeps r id s h = elim (Option-cases (find id s.nodes)) [
    | inl e ↦ rw (e, node_handler) h
    | inr (n, e) ↦ rw (e, node_handler) (found_node-Keeps r id _ _ h)
  ]

  module _ (parse_float : Text → Option P.Float) (float_leb : P.Float → P.Float → Bool) where
    nodes_top_level_handler-Keeps :
        (r : Request) (s : Server P)
        → SameKeys P s
        → Keeps P (nodes_top_level_handler P details_text interfaces_of parse_float float_leb r s)
    unfolding nodes_top_level_handler
    nodes_top_level_handler-Keeps r s h =
        if_elim (Keeps P) (r.method == codes "GET" && r.op == codes "list") _ _ (λ e. h)
          (λ e.
            if_elim (Keeps P) (r.method == codes "GET" && r.op == codes "deployment_status") _ _
              (λ e. h)
              (λ e.
                if_elim (Keeps P) (r.method == codes "POST" && r.op == codes "acquire") _ _
                  (λ e. nodes_acquire_handler-Keeps P parse_float float_leb r.form s h)
                  (λ e.
                    if_elim (Keeps P) (r.method == codes "POST" && r.op == codes "release") _ _
                      (λ e. nodes_release_handler-Keeps P r.form s h) (λ e. h))))

    -- The states that the server reaches from the cleared one: nodes are put there or changed, and
    -- requests handled.
    pub data Reachable : Server P → Type 0 where
      cleared : Reachable (clear P)
      put :
          (s : Server P) (id : Text) (n : MaasObject P)
          → Reachable s
          → Reachable (record s { nodes = store id n s.nodes })
      handled :
          (s s' : Server P) (r : Request) (a : Answer P)
          → Reachable s
          → nodes_handler P details_text interfaces_of parse_float float_leb r s ≡ some (a, s')
          → Reachable s'

    nodes_handler-Keeps :
        (r : Request) (s : Server P)
        → SameKeys P s
        → Keeps P (nodes_handler P details_text interfaces_of parse_float float_leb r s)
    unfolding nodes_handler node_handler
    nodes_handler-Keeps r s h = by_target r.target
      where
        by_target :
            (t : Target)
            → Keeps P (
                nodes_handler P details_text interfaces_of parse_float float_leb
                  (record r { target = t })
                  s)
        by_target top = nodes_top_level_handler-Keeps r s h
        by_target (node_at id) = node_handler-Keeps r id s h
        by_target elsewhere = h

    Reachable-SameKeys : (s : Server P) → Reachable s → SameKeys P s
    Reachable-SameKeys _ cleared = refl
    Reachable-SameKeys _ (put s id n h) = Reachable-SameKeys s h
    Reachable-SameKeys _ (handled s s' r a h e) =
        subst (Keeps P) e (nodes_handler-Keeps r s (Reachable-SameKeys s h))

    -- In every state that the server reaches, any operation on any node is recorded: the panic of
    -- `addNodeOperation` at an inconsistent state does not happen.
    pub add_node_operation-Reachable :
        (s : Server P) (id op : Text) (form : Values)
        → Reachable s
        → (s' : Server P) × (add_node_operation P id op form s ≡ some s')
    add_node_operation-Reachable s id op form h =
        let (s', e, k) = add_node_operation-SameKeys P id op form s (Reachable-SameKeys s h) in
        (s', e)
