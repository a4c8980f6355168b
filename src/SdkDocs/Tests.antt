-- ===== src/SdkDocs/Tests.antt =====
-- Look-ups in a small documentation.
use nobl9_language_server.Base.{
  map, ◌≡◌, refl, Bool, true, false, none, some, List, [], ◌∷◌, ok, panic,
}
use nobl9_language_server.Text.{Bytes, codes, equal, has_prefix, has_suffix}
use nobl9_language_server.Manifest.{service_kind, slo_kind, project_kind, same_kind, kind_number}
use nobl9_language_server.YamlPath.Match.{match}
use nobl9_language_server.SdkDocs.{
  PropertyDoc, ObjectDoc, select_deprecated_paths, new, get_property, get_deprecated_paths,
}
use nobl9_language_server.SdkDocs.Grouping.{properties_of, the_deprecated, get_deprecated_paths-new}
use nobl9_language_server.SdkDocs.Matching.{IsFirst, get_property-IsFirst}

abbrev property : Bytes → Bool → PropertyDoc
property path is_deprecated = record {
  path = path;
  type_name = codes "string";
  doc = [];
  is_deprecated = is_deprecated;
  examples = [];
  values = [];
  rules = [];
  children_paths = [];
}

abbrev objects : List ObjectDoc
objects =
    record { kind = service_kind; properties = property (codes "$.a") true ∷ [] }
    ∷ record { kind = slo_kind; properties = property (codes "$.b") true ∷ [] }
    ∷ record {
      kind = service_kind;
      properties = property (codes "$.l.*") false ∷ property (codes "$.l.k") true ∷ [];
    }
    ∷ []

get_deprecated_paths-new_example :
    get_deprecated_paths (new objects) service_kind
    ≡ map (λ (p : PropertyDoc). p.path) (the_deprecated (properties_of service_kind objects))
get_deprecated_paths-new_example = get_deprecated_paths-new service_kind objects

deprecated_of_both :
    get_deprecated_paths (new objects) service_kind ≡ codes "$.a" ∷ codes "$.l.k" ∷ []
unfolding get_deprecated_paths new select_deprecated_paths codes same_kind kind_number
deprecated_of_both = refl

get_property-IsFirst_example :
    IsFirst
      (codes "$.l.k")
      (properties_of service_kind objects)
      (get_property (new objects) service_kind (codes "$.l.k"))
get_property-IsFirst_example = get_property-IsFirst objects service_kind (codes "$.l.k")

-- The star comes first, so it hides the property with the very path.
star_is_found :
    get_property (new objects) service_kind (codes "$.l.k")
    ≡ ok (some (property (codes "$.l.*") false))
unfolding get_property new codes match equal has_prefix has_suffix
star_is_found = refl

empty_key_panics : get_property (new objects) service_kind (codes "$.l.") ≡ panic
unfolding get_property new codes match equal has_prefix has_suffix
empty_key_panics = refl

no_such_kind : get_property (new objects) project_kind (codes "$.a") ≡ ok none
unfolding get_property new codes
no_such_kind = refl
