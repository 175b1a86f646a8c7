-- ===== src/Controller/Allocation/Request.antt =====
-- `AllocateMachine` of controller.go.
use gomaasapi.Prelude.{[], ◌∷◌, ◌>>=◌, return}
use gomaasapi.Strings.{codes}
use gomaasapi.Errors.Translate.{Cases, no_match, translate}
use gomaasapi.Http.{Platform}
use gomaasapi.Schema.{Juju}
use gomaasapi.Allocate.{AllocateMachineArgs}
use gomaasapi.Resources.Hosts.{Machine, read_machine}
use gomaasapi.Controller.{Controller, post}
use gomaasapi.Controller.Answers.{Reading, failing, reading}
use gomaasapi.Controller.Allocation.{
  allocate_params, Conversions, ConstraintMatches, parse_allocate_constraints_response,
}

abbrev pub allocate_cases : Cases
allocate_cases = (409, no_match) ∷ []

module _ (P : Platform) (J : Juju P) (G : Conversions P.Float) (c : Controller) where
  -- AllocateMachine
  unfoldable pub allocate_machine : AllocateMachineArgs → Reading P (Machine × ConstraintMatches)
  allocate_machine args = do
    result ←
        failing P (translate P.errors allocate_cases)
          (post P c (codes "machines") (codes "allocate") (allocate_params args))
    m ← reading P (read_machine P J c.api_version result)
    matches ← reading P (parse_allocate_constraints_response P J G result m)
    return (m, matches)
