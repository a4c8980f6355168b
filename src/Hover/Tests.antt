-- ===== src/Hover/Tests.antt =====
-- Hovers over lines of small objects.
use nobl9_language_server.Base.{
  Bool, Option, ◌≡◌, refl, true, false, none, some, [], ◌∷◌, ◌++◌, ◌&&◌, Exec, ok, panic, ◌>>=◌,
}
use nobl9_language_server.Text.{Bytes, codes, equal, has_prefix, index, last_index, split}
use nobl9_language_server.Text.Runes.{runes, is_space, trim_space}
use nobl9_language_server.Text.Decimal.{itoa}
use nobl9_language_server.Manifest.{
  agent_kind, slo_kind, project_kind, is_blank, same_kind, kind_number, other, Object,
}
use nobl9_language_server.YamlAstSimple.Lines.{Line, mapping, get_map_value}
use nobl9_language_server.YamlAstSimple.Lexer.{plain_line}
use nobl9_language_server.YamlAstSimple.Scan.{
  get_indent_level, is_mapping_node, is_block_scalar, get_colon_index,
}
use nobl9_language_server.Files.Simple.{Sdk, SimpleObjectNode, parse_simple_object_file}
use nobl9_language_server.ObjectRef.{is_project_scoped}
use nobl9_language_server.SdkDocs.{PropertyDoc, RulePlan}
use nobl9_language_server.Locate.{get_line_value_for_path}
use nobl9_language_server.Completion.{GetProperty}
use nobl9_language_server.Hover.Templates.{markdown_escape, is_special}
use nobl9_language_server.Hover.Templates.Escaping.{read, literals, read-markdown_escape}
use nobl9_language_server.Hover.Provider.{
  HoverRepo, Printing, hover, build_property_docs, generate_property_key_doc, response_of,
}
use nobl9_language_server.Hover.Provider.Scoping.{Agree, hover-agree}
use nobl9_language_server.Hover.Provider.MetricSource.{hover-known_kind}

read-markdown_escape_example : read (markdown_escape (codes "a_b \\*")) ≡ literals (codes "a_b \\*")
read-markdown_escape_example = read-markdown_escape (codes "a_b \\*")

escape_runs : markdown_escape (codes "a_b*") ≡ codes "a\\_b\\*"
unfolding markdown_escape codes is_special
escape_runs = refl

abbrev rule : Bytes → RulePlan
rule description = record {
  description = description;
  details = codes "d";
  conditions = codes "c" ∷ [];
}

abbrev project_doc : PropertyDoc
project_doc = record {
  path = codes "$.metadata.project";
  type_name = codes "string";
  doc = codes "Doc.";
  is_deprecated = false;
  examples = codes "a" ∷ codes "b" ∷ [];
  values = [];
  rules = rule (codes "TODO") ∷ rule (codes "r") ∷ [];
  children_paths = [];
}

property_docs_run :
    build_property_docs project_doc
    ≡ codes
        "`project:string`\n\nDoc.\n\n**Validation rules:**\n\n- r; d\n  Conditions:\n  - c\n\n**Examples:**\n\n```yaml\na\n---\nb\n```"
unfolding build_property_docs codes markdown_escape is_special equal is_blank
property_docs_run = refl

abbrev docs : GetProperty
docs kind path = ok (some project_doc)

abbrev is_agent : Bytes → Bool
is_agent s = equal s (codes "Agent")

abbrev sdk : Sdk
sdk = record {
  parse_kind = λ s. agent_kind;
  is_kind = is_agent;
  parse_version = λ s. s;
  is_version = λ s. true;
  version_v1alpha = codes "n9/v1alpha";
}

abbrev printing : Printing
printing = record {
  marshal = λ o. ok (codes "spec:\n  description: It.\n");
  get_kind = λ o. project_kind;
  get_name = λ o. codes "p";
}

abbrev found : Object
found = record { scope = none; spec = other }

abbrev repo : HoverRepo
repo = record { get_object = λ kind name project. ok (some found); get_user = λ id. ok none }

-- An API that panics at the look-ups that are never made.
abbrev strict_object : Bool → Exec (Option Object)
strict_object true = panic
strict_object false = ok (some found)

abbrev strict : HoverRepo
strict = record repo {
  get_object = λ kind name project. strict_object (is_blank project && is_project_scoped kind);
}

repos-Agree : Agree repo strict
repos-Agree = record { object = λ k name project e. rw e; user = λ id. refl }

abbrev entry : Bytes → Bytes → Line
entry path value = record (plain_line mapping 0 (codes "k: " ++ value)) {
  path = path;
  generalized_path = path;
  colon = some 1;
}

abbrev node : SimpleObjectNode
node = record {
  kind = slo_kind;
  version = codes "n9/v1alpha";
  doc = record {
    offset = 0;
    lines = entry (codes "$.spec.indicator.metricSource.kind") (codes "Agent") ∷ [];
  };
  list_element = none;
}

abbrev name_line : Line
name_line = entry (codes "$.spec.indicator.metricSource.name") (codes "a")

abbrev project_line : Line
project_line = entry (codes "$.metadata.project") (codes "p")

hover-agree_example :
    hover sdk docs repo printing 3 node name_line ≡ hover sdk docs strict printing 3 node name_line
hover-agree_example = hover-agree sdk docs printing repo strict repos-Agree 3 node name_line

hover-known_kind_example : hover sdk docs repo printing 3 node name_line ≡ (
    generate_property_key_doc sdk docs repo printing slo_kind name_line >>= λ text.
    ok (response_of sdk docs repo printing text))
unfolding codes equal get_line_value_for_path get_map_value has_prefix
hover-known_kind_example =
    hover-known_kind sdk docs repo printing 3 node name_line {value = codes "a"}
      {raw = codes "Agent"} refl refl refl refl refl

-- The value shows the object, with its description.
object_is_shown :
    hover sdk docs strict printing 3 node project_line
    ≡ ok (some (codes "`p` Project\n\nIt.\n\n```yaml\nspec:\n  description: It.\n```"))
unfolding hover codes equal has_prefix get_map_value same_kind kind_number is_blank
    is_project_scoped parse_simple_object_file split get_indent_level runes is_mapping_node
    is_block_scalar get_colon_index is_space trim_space last_index itoa index
object_is_shown = refl
