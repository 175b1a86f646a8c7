-- ===== src/Tests/Controllers.antt =====
-- The making of controllers, at concrete arguments.
use gomaasapi.Prelude.{◌≡◌, refl, ◌≢◌, true, false, [], ok, err, list_eq, nat_eq, arith}
use gomaasapi.Strings.{codes}
use gomaasapi.Strings.Split.{occurrences}
use gomaasapi.Url.{split_versioned_url}
use gomaasapi.Url.Pattern.{Matches}
use gomaasapi.Url.Versioned.{split_versioned_url_iff}
use gomaasapi.Errors.{ErrorValue, is_unsupported_version_error}
use gomaasapi.Versions.{two_dot_oh}
use gomaasapi.Reading.{returned}
use gomaasapi.Controller.Operations.{supported_version}
use gomaasapi.Controller.Creation.{ControllerArgs, new_controller}
use gomaasapi.Controller.Creation.Laws.{new_controller_unsupported}
use gomaasapi.Tests.Bench.{plain_errors, bench, world}
use gomaasapi.Tests.Juju.{juju, version_number}

abbrev old : ControllerArgs
old = record { base_url = codes "/MAAS/api/1.0/"; api_key = codes "a:b:c" }

abbrev keyless : ControllerArgs
keyless = record { base_url = codes "/MAAS/api/2.0/"; api_key = codes "a:b" }

old_split : split_versioned_url (codes "/MAAS/api/1.0/") ≡ (codes "/MAAS/", codes "1.0", true)
unfolding split_versioned_url codes list_eq nat_eq
old_split = refl

keyless_split : split_versioned_url (codes "/MAAS/api/2.0/") ≡ (codes "/MAAS/", codes "2.0", true)
unfolding split_versioned_url codes list_eq nat_eq
keyless_split = refl

old-Matches : Matches (codes "/MAAS/api/1.0/") (codes "/MAAS/") (codes "1.0")
old-Matches =
    (split_versioned_url_iff (codes "/MAAS/api/1.0/") (codes "/MAAS/") (codes "1.0")).0 old_split

keyless-Matches : Matches (codes "/MAAS/api/2.0/") (codes "/MAAS/") (codes "2.0")
keyless-Matches =
    (split_versioned_url_iff (codes "/MAAS/api/2.0/") (codes "/MAAS/") (codes "2.0")).0
      keyless_split

old_refused : supported_version (codes "1.0") ≡ false
unfolding supported_version codes list_eq nat_eq
old_refused = refl

keyless_accepted : supported_version (codes "2.0") ≡ true
unfolding supported_version codes list_eq nat_eq
keyless_accepted = refl

two_read : version_number (codes "2.0") ≡ ok two_dot_oh
unfolding codes list_eq nat_eq
two_read = refl

one_colon : occurrences b':' (codes "a:b") ≢ 2
unfolding occurrences codes nat_eq
one_colon e = omega arith

new_controller_unsupported_example :
    (e : ErrorValue) × (new_controller bench juju old (world []) ≡ (err (returned e), world []))
    × (is_unsupported_version_error plain_errors e ≡ true)
new_controller_unsupported_example =
    new_controller_unsupported bench juju old (codes "/MAAS/") (codes "1.0") (world []) old-Matches
      old_refused
