-- ===== src/Testing/Methods.antt =====
-- The four methods of SimpleTestServer of testing.go, and what is served and to come at each.
use gomaasapi.Prelude.{
  ◌≡◌, refl, ap, ◌∙◌, inl, inr, Bool, true, false, ◌&&◌, Option, some, List, [], ◌∷◌, ◌++◌,
  if◌then◌else◌, ◌==◌, nat_eq, list_eq, Bool-cases,
}
use gomaasapi.Strings.{Text, codes}
use gomaasapi.Testing.{
  SimpleResponse, SimpleRequest, Served, SimpleTestServer, Method, get_method, put_method,
  post_method, delete_method, method_of, served, with_served,
}
use gomaasapi.Testing.Queues.{queue}

abbrev pub same : Method → Method → Bool
same get_method get_method = true
same put_method put_method = true
same post_method post_method = true
same delete_method delete_method = true
same m n = false

pub same_sound : (m n : Method) → same m n ≡ true → m ≡ n
same_sound get_method get_method h = refl
same_sound put_method put_method h = refl
same_sound post_method post_method h = refl
same_sound delete_method delete_method h = refl
same_sound get_method put_method h = cc
same_sound get_method post_method h = cc
same_sound get_method delete_method h = cc
same_sound put_method get_method h = cc
same_sound put_method post_method h = cc
same_sound put_method delete_method h = cc
same_sound post_method get_method h = cc
same_sound post_method put_method h = cc
same_sound post_method delete_method h = cc
same_sound delete_method get_method h = cc
same_sound delete_method put_method h = cc
same_sound delete_method post_method h = cc

pub served-with_served :
    (m n : Method) (q : Served) (s : SimpleTestServer)
    → served n (with_served m q s) ≡ (if same n m then q else served n s)
served-with_served get_method get_method q s = refl
served-with_served get_method put_method q s = refl
served-with_served get_method post_method q s = refl
served-with_served get_method delete_method q s = refl
served-with_served put_method get_method q s = refl
served-with_served put_method put_method q s = refl
served-with_served put_method post_method q s = refl
served-with_served put_method delete_method q s = refl
served-with_served post_method get_method q s = refl
served-with_served post_method put_method q s = refl
served-with_served post_method post_method q s = refl
served-with_served post_method delete_method q s = refl
served-with_served delete_method get_method q s = refl
served-with_served delete_method put_method q s = refl
served-with_served delete_method post_method q s = refl
served-with_served delete_method delete_method q s = refl

pub served-requests :
    (m n : Method) (q : Served) (s : SimpleTestServer) → (with_served m q s).requests ≡ s.requests
served-requests get_method n q s = refl
served-requests put_method n q s = refl
served-requests post_method n q s = refl
served-requests delete_method n q s = refl

-- The server, with one request more
abbrev pub asked : SimpleRequest → SimpleTestServer → SimpleTestServer
asked r s = record s { requests = s.requests ++ r ∷ [] }

pub served-asked :
    (m : Method) (r : SimpleRequest) (s : SimpleTestServer) → served m (asked r s) ≡ served m s
served-asked get_method r s = refl
served-asked put_method r s = refl
served-asked post_method r s = refl
served-asked delete_method r s = refl

pub with_served-asked :
    (m : Method) (r : SimpleRequest) (s : SimpleTestServer)
    → with_served m (served m s) (asked r s) ≡ asked r s
with_served-asked get_method r s = refl
with_served-asked put_method r s = refl
with_served-asked post_method r s = refl
with_served-asked delete_method r s = refl

-- The responses that are still to come to a method and a URL
abbrev pub pending : Method → Text → SimpleTestServer → Option (List SimpleResponse)
pending m uri s = queue uri (served m s)

pub pending-with_served :
    (m n : Method) (uri other : Text) (q : Served) (rest : List SimpleResponse) (r : SimpleRequest)
    (s : SimpleTestServer)
    → queue other q ≡ (if other == uri then some rest else queue other (served m s))
    → pending n other (with_served m q (asked r s))
      ≡ (if same n m && other == uri then some rest else pending n other s)
pending-with_served m n uri other q rest r s h =
    ap (queue other) (served-with_served m n q (asked r s)) ∙ elim (Bool-cases (same n m)) [
      | inl e ↦ let p : n ≡ m = same_sound n m e in rw e (rw p h)
      | inr e ↦ rw e (ap (queue other) (served-asked n r s))
    ]

-- The names of the methods
abbrev pub name_of : Method → Text
name_of get_method = codes "GET"
name_of put_method = codes "PUT"
name_of post_method = codes "POST"
name_of delete_method = codes "DELETE"

pub method_of-name_of : (m : Method) → method_of (name_of m) ≡ some m
unfolding method_of list_eq nat_eq codes
method_of-name_of get_method = refl
method_of-name_of put_method = refl
method_of-name_of post_method = refl
method_of-name_of delete_method = refl
