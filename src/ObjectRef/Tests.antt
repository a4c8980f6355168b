-- ===== src/ObjectRef/Tests.antt =====
-- Runs of the table of references.
use nobl9_language_server.Base.{◌≡◌, refl, none, some, []}
use nobl9_language_server.Text.{codes, count, equal, has_prefix, index}
use nobl9_language_server.Text.Decimal.{itoa, value_from, is_digit}
use nobl9_language_server.Manifest.{alert_policy_kind, same_kind}
use nobl9_language_server.YamlAstSimple.Lines.{Line}
use nobl9_language_server.YamlAstSimple.Lexer.{plain_line}
use nobl9_language_server.ObjectRef.{Reference, get, indexes_from}
use nobl9_language_server.ObjectRef.Filling.{percents, get-percents}

abbrev method_name : Line
method_name = record (plain_line 4 6 []) {
  path = codes "$[0].spec.alertMethods[2].metadata.name";
  generalized_path = codes "$.spec.alertMethods[*].metadata.name";
}

abbrev method_reference : Reference
method_reference = elim (get alert_policy_kind method_name) [
  | some r ↦ r
  | none ↦ record {
    path = [];
    kind = alert_policy_kind;
    project_path = [];
    slo_path = [];
    applies_to = [];
  }
]

method_project : method_reference.project_path ≡ codes "$.spec.alertMethods[2].metadata.project"
unfolding get codes equal same_kind indexes_from itoa value_from is_digit has_prefix index
method_project = refl

get-percents_example :
    (percents method_reference.project_path ≡ 0) × (percents method_reference.slo_path ≡ 0)
unfolding get codes equal same_kind indexes_from itoa value_from is_digit has_prefix index count
get-percents_example = get-percents alert_policy_kind method_name {r = method_reference} refl refl
