-- ===== src/Testing/Laws.antt =====
-- SimpleTestServer of testing.go as queues of responses, one for each method and URL.
use mathlib.Core.Path.{subst}
use gomaasapi.Prelude.{
  ℕ, ◌≡◌, refl, sym, ap, ◌∙◌, ◌⊎◌, inl, inr, true, ◌&&◌, Option, none, some, List, [], ◌∷◌, ◌++◌,
  if◌then◌else◌, ◌==◌, nat_eq, list_eq, Bool-cases, Option-cases, arith,
}
use gomaasapi.Strings.{Text}
use gomaasapi.Testing.{
  SimpleResponse, simple_response, SimpleRequest, Served, SimpleTestServer, Method, get_method,
  put_method, post_method, delete_method, method_of, served, with_served, missing_page,
  new_simple_server, add_response, serve, handler, reset_requests,
}
use gomaasapi.Testing.Queues.{queue, serve_lem}
use gomaasapi.Testing.Added.{
  left, Fits, with_added, queue-with_added, FitsAfter, serve-Fits, with_added-Fits,
}
use gomaasapi.TestServer.Store.{find}
use gomaasapi.Testing.Methods.{
  same, same_sound, served-with_served, served-requests, asked, served-asked, with_served-asked,
  pending, pending-with_served, name_of, method_of-name_of,
}

-- What the handler makes of what is served
abbrev answered :
    Method
    → SimpleRequest
    → SimpleTestServer
    → Option (SimpleResponse × Served)
    → Option SimpleResponse × SimpleTestServer
answered m r s o = elim o [
  | none ↦ (none, asked r s)
  | some (a, q) ↦ (some a, with_served m q (asked r s))
]

handler-answered :
    (m : Method) (r : SimpleRequest) (s : SimpleTestServer)
    → method_of r.method ≡ some m
    → r.is_read ≡ true
    → handler r s ≡ answered m r s (serve r.uri (served m s))
unfolding handler
handler-answered m r s known is_read =
    rw (handler, known)
      (ap (λ b. if b then answered m r s (serve r.uri (served m s)) else (none, s)) is_read)

-- The servers that a test reaches: it adds responses, sends requests, whatever becomes of them, and
-- resets the record of them, in any order.
pub data Reachable : SimpleTestServer → Type 0 where
  fresh : Reachable new_simple_server
  with_response :
      {s : SimpleTestServer} (m : Method) (path : Text) (status : ℕ) (body : Text)
      → Reachable s
      → Reachable (add_response m path status body s)
  with_request :
      {s : SimpleTestServer} (r : SimpleRequest) → Reachable s → Reachable (handler r s).1
  reset : {s : SimpleTestServer} → Reachable s → Reachable (reset_requests s)

abbrev AllFit : SimpleTestServer → Type 0
AllFit s = (m : Method) → Fits (served m s)

served-Fits :
    (m : Method) (q : Served) (s : SimpleTestServer)
    → Fits q
    → AllFit s
    → AllFit (with_served m q s)
served-Fits m q s h k n =
    subst Fits (sym (served-with_served m n q s))
      (elim (Bool-cases (same n m)) [ inl e ↦ rw e h | inr e ↦ rw e (k n) ])

asked-Fits : (r : SimpleRequest) (s : SimpleTestServer) → AllFit s → AllFit (asked r s)
asked-Fits r s h m = subst Fits (sym (served-asked m r s)) (h m)

reset-Fits : (s : SimpleTestServer) → AllFit s → AllFit (reset_requests s)
unfolding reset_requests
reset-Fits s h get_method = h get_method
reset-Fits s h put_method = h put_method
reset-Fits s h post_method = h post_method
reset-Fits s h delete_method = h delete_method

fresh-Fits : AllFit new_simple_server
unfolding find
fresh-Fits get_method uri = omega arith
fresh-Fits put_method uri = omega arith
fresh-Fits post_method uri = omega arith
fresh-Fits delete_method uri = omega arith

answered-Fits :
    (m : Method) (r : SimpleRequest) (s : SimpleTestServer) (o : Option (SimpleResponse × Served))
    → FitsAfter o
    → AllFit s
    → AllFit (answered m r s o).1
answered-Fits m r s none h k = asked-Fits r s k
answered-Fits m r s (some (a, q)) h k = served-Fits m q (asked r s) h (asked-Fits r s k)

handler-Fits : (r : SimpleRequest) (s : SimpleTestServer) → AllFit s → AllFit (handler r s).1
unfolding handler
handler-Fits r s h = elim (Option-cases (method_of r.method)) [
  | inl e ↦ rw (handler, e) h
  | inr (m, e) ↦ elim (Bool-cases r.is_read) [
    | inl f ↦
        subst (λ (p : Option SimpleResponse × SimpleTestServer). AllFit p.1)
          (sym (handler-answered m r s e f))
          (answered-Fits m r s _ (serve-Fits r.uri (served m s) (h m)) h)
    | inr f ↦ rw (handler, e, f) h
  ]
]

Reachable-Fits : {s : SimpleTestServer} → Reachable s → AllFit s
unfolding add_response
Reachable-Fits fresh = fresh-Fits
Reachable-Fits (with_response {s} m path status body r) =
    let h = Reachable-Fits r in
    served-Fits m _ s (with_added-Fits path (simple_response status body) (served m s) (h m)) h
Reachable-Fits (with_request {s} q r) = handler-Fits q s (Reachable-Fits r)
Reachable-Fits (reset {s} r) = reset-Fits s (Reachable-Fits r)

pending-added :
    (s : SimpleTestServer)
    → AllFit s
    → (k : Method) (path : Text) (status : ℕ) (body : Text) (n : Method) (uri : Text)
    → pending n uri (add_response k path status body s) ≡ (
        if same n k && uri == path
        then some (left (pending k path s) ++ simple_response status body ∷ [])
        else pending n uri s)
unfolding add_response
pending-added s h k path status body n uri =
    ap (queue uri)
      (served-with_served k n (with_added path (simple_response status body) (served k s)) s)
    ∙ elim (Bool-cases (same n k)) [
      | inl e ↦
          let p : n ≡ k = same_sound n k e in
          rw e (rw p (queue-with_added path (simple_response status body) (served k s) uri (h k)))
      | inr e ↦ rw e refl
    ]

-- On a server that a test reaches: a response that is added to a method and a URL goes behind those
-- that are still to come there, and nothing else changes in what is to come. A request that is read,
-- with one of the four methods, is recorded, whatever becomes of it. Where the server has no list of
-- responses for its method and URL, it is not found; where the list is used up, the handler panics;
-- else it gets the first of those that are to come, and all other responses stay to come.
pub handler_lem :
    (m : Method) (r : SimpleRequest) (s : SimpleTestServer)
    → Reachable s
    → r.method ≡ name_of m
    → r.is_read ≡ true
    → ((k : Method) (path : Text) (status : ℕ) (body : Text) (n : Method) (uri : Text)
        → pending n uri (add_response k path status body s) ≡ (
            if same n k && uri == path
            then some (left (pending k path s) ++ simple_response status body ∷ [])
            else pending n uri s))
      × (((pending m r.uri s ≡ none)
            × (handler r s
                ≡ (some (missing_page r.uri), record s { requests = s.requests ++ r ∷ [] })))
          ⊎ ((pending m r.uri s ≡ some [])
              × (handler r s ≡ (none, record s { requests = s.requests ++ r ∷ [] })))
          ⊎ ((a : SimpleResponse) × (rest : List SimpleResponse) × (s' : SimpleTestServer)
              × (pending m r.uri s ≡ some (a ∷ rest))
              × (handler r s ≡ (some a, s'))
              × (s'.requests ≡ s.requests ++ r ∷ [])
              × ((n : Method) (uri : Text)
                  → pending n uri s'
                    ≡ (if same n m && uri == r.uri then some rest else pending n uri s))))
handler_lem m r s reached named is_read =
    let known : method_of r.method ≡ some m = ap method_of named ∙ method_of-name_of m in
    (
      pending-added s (Reachable-Fits reached),
      elim (serve_lem r.uri (served m s)) [
        | inl (e, f) ↦ inl (
          e,
          handler-answered m r s known is_read
              ∙ ap (answered m r s) f
              ∙ ap (λ t. (some (missing_page r.uri), t)) (with_served-asked m r s),
        )
        | inr (inl (e, f)) ↦
            inr (inl (e, handler-answered m r s known is_read ∙ ap (answered m r s) f))
        | inr (inr (a, rest, q, e, f, g)) ↦ inr (
            inr (
              a,
              rest,
              with_served m q (asked r s),
              e,
              handler-answered m r s known is_read ∙ ap (answered m r s) f,
              served-requests m m q (asked r s),
              λ n uri. pending-with_served m n r.uri uri q rest r s (g uri),
            ))
      ],
    )
