-- ===== src/Tests/Tags.antt =====
-- The tags of the test server, at concrete data.
use gomaasapi.Prelude.{
  ◌≡◌, refl, not, none, [], ◌∷◌, ◌==◌, list_eq, nat_eq, if◌then◌else◌, contains, length,
}
use gomaasapi.Strings.{Text, codes}
use gomaasapi.Strings.Counts.{times}
use gomaasapi.Params.{Values, values_of}
use gomaasapi.Http.{path_url}
use gomaasapi.Object.{no_fields}
use gomaasapi.Object.Maas.{MaasObject}
use gomaasapi.TestServer.Store.{find}
use gomaasapi.TestServer.Devices.{get_values}
use gomaasapi.TestServer.Tags.{
  TagServer, values_or_nil, tags_of, update_nodes, tag_answer, add_remove_count,
}
use gomaasapi.TestServer.Tags.Laws.{update_nodes_lem}
use gomaasapi.Tests.Bench.{bench}

abbrev bare : MaasObject bench
bare = record { values = no_fields; client = none; uri = path_url (codes "/api/1.0/nodes/a/") }

abbrev two_tagged : TagServer bench
two_tagged = record {
  nodes = (codes "a", bare) ∷ (codes "b", bare) ∷ [];
  tags = [];
  zones = [];
  tags_per_node = (codes "b", codes "t" ∷ codes "u" ∷ []) ∷ [];
  client = none;
  version = codes "1.0";
}

abbrev changes : Values
changes = (codes "add", codes "a" ∷ []) ∷ (codes "remove", codes "b" ∷ []) ∷ []

update_nodes_lem_example :
    (s : TagServer bench) × (update_nodes bench (codes "t") changes two_tagged ≡ (
      tag_answer bench 200 (
          add_remove_count
            (length (values_or_nil (get_values changes (codes "add"))))
            (length (values_or_nil (get_values changes (codes "remove"))))),
      s,
    ))
    × ((id tag : Text)
        → times tag (tags_of bench id s) ≡ (
            if not (tag == codes "t")
            then times tag (tags_of bench id two_tagged)
            else if contains (values_or_nil (get_values changes (codes "remove"))) id
            then 0
            else if contains (values_or_nil (get_values changes (codes "add"))) id
            then 1
            else times tag (tags_of bench id two_tagged)))
unfolding get_values values_of list_eq nat_eq codes values_or_nil find
update_nodes_lem_example = update_nodes_lem bench (codes "t") changes two_tagged refl refl refl
