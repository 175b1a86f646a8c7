-- ===== src/Controller/Capabilities.antt =====
-- The capabilities that the server lists at its version, in `readAPIVersionInfo` of controller.go.
use gomaasapi.Prelude.{List}
use gomaasapi.Strings.{Text, codes}
use gomaasapi.Value.{Value}
use gomaasapi.Http.{Platform}
use gomaasapi.Schema.{Juju, list, string, field_map, FieldList, no_fields, need}
use gomaasapi.Reading.{◌>>=◌, Read, assert_map, assert_list, assert_strings, at, checked, typed}

module _ (P : Platform) (J : Juju P) where
  version_fields : FieldList P.Float
  version_fields = need (codes "capabilities") (list string) no_fields

  unfoldable pub capabilities_of : Value P.Float → Read P (List Text)
  unfolding version_fields
  capabilities_of parsed = do
    coerced ← checked P J typed (codes "version response") (field_map version_fields) parsed
    valid ← assert_map P coerced
    values ← assert_list P (at (codes "capabilities") valid)
    assert_strings P values
