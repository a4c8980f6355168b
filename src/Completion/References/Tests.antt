-- ===== src/Completion/References/Tests.antt =====
-- References completed in an SLO.
use nobl9_language_server.Base.{
  Bool, ◌≡◌, refl, true, false, none, some, List, [], ◌∷◌, Exec, ok, panic, ◌&&◌, ◌++◌,
}
use nobl9_language_server.Text.{Bytes, codes, equal, has_prefix}
use nobl9_language_server.Manifest.{slo_kind, agent_kind, is_blank, same_kind, kind_number}
use nobl9_language_server.YamlAstSimple.Lines.{Line, mapping, get_map_value}
use nobl9_language_server.YamlAstSimple.Lexer.{plain_line}
use nobl9_language_server.Files.Simple.{Sdk, SimpleObjectNode}
use nobl9_language_server.ObjectRef.{is_project_scoped}
use nobl9_language_server.Locate.{get_line_value_for_path}
use nobl9_language_server.Completion.References.{ObjectsRepo, complete_references, reference_item}
use nobl9_language_server.Completion.References.MetricSource.{complete_references-known_kind}
use nobl9_language_server.Completion.References.Scoping.{Agree, complete_references-agree}

abbrev is_agent : Bytes → Bool
is_agent s = equal s (codes "Agent")

abbrev sdk : Sdk
sdk = record {
  parse_kind = λ s. agent_kind;
  is_kind = is_agent;
  parse_version = λ s. s;
  is_version = λ s. true;
  version_v1alpha = codes "n9/v1alpha";
}

abbrev agents : ObjectsRepo
agents = record {
  get_all_names = λ kind project. ok (codes "my-agent" ∷ []);
  get_object = λ kind name project. ok none;
  get_users = λ phrase. ok [];
  get_roles = ok none;
}

-- `key: value` at a path.
abbrev entry : Bytes → Bytes → Line
entry path value = record (plain_line mapping 0 (codes "k: " ++ value)) {
  path = path;
  generalized_path = path;
  colon = some 1;
}

abbrev name_line : Line
name_line = entry (codes "$.spec.indicator.metricSource.name") []

abbrev node : SimpleObjectNode
node = record {
  kind = slo_kind;
  version = codes "n9/v1alpha";
  doc = record {
    offset = 0;
    lines =
        entry (codes "$.metadata.project") (codes "p")
        ∷ entry (codes "$.spec.indicator.metricSource.kind") (codes "Agent")
        ∷ name_line
        ∷ [];
  };
  list_element = none;
}

complete_references-known_kind_example : complete_references sdk agents none node name_line ≡ ok []
unfolding codes equal get_line_value_for_path get_map_value has_prefix
complete_references-known_kind_example =
    complete_references-known_kind sdk agents none node name_line {raw = codes "Agent"} refl refl
      refl refl

-- An API that panics at the look-ups that are never made.
abbrev strict_names : Bool → Exec (List Bytes)
strict_names true = panic
strict_names false = ok (codes "my-agent" ∷ [])

abbrev strict : ObjectsRepo
strict = record agents {
  get_all_names = λ kind project. strict_names (is_blank project && is_project_scoped kind);
}

agents-Agree : Agree agents strict
agents-Agree = record {
  names = λ k project e. rw e;
  object = λ k name project e e'. refl;
  users = λ phrase. refl;
  roles = refl;
}

complete_references-agree_example :
    complete_references sdk agents none node name_line
    ≡ complete_references sdk strict none node name_line
complete_references-agree_example =
    complete_references-agree sdk agents strict agents-Agree none node name_line

-- The names of services are asked for in the project of the SLO.
service_is_completed :
    complete_references sdk strict (some (b':' ∷ [])) node (entry (codes "$.spec.service") [])
    ≡ ok (reference_item (codes " my-agent") ∷ [])
unfolding codes complete_references equal has_prefix get_map_value same_kind kind_number is_blank
    is_project_scoped
service_is_completed = refl
