-- ===== src/Diagnostics/Tests.antt =====
-- Runs of the diagnostics on small objects.
use nobl9_language_server.Base.{
  ◌⊎◌, Option, ℕ, ◌≡◌, refl, false, none, some, [], ◌∷◌, Exec, ok, out_of_fuel, arith,
}
use nobl9_language_server.Text.{Bytes, codes}
use nobl9_language_server.Manifest.{Kind, project_kind, service_kind, Object, slo, other}
use nobl9_language_server.Messages.{Diagnostic, warning, server_name, Range, new_point_range}
use nobl9_language_server.YamlPath.Filter.{Ast, other}
use nobl9_language_server.Files.{File, ObjectNode, pos}
use nobl9_language_server.Diagnostics.{Fetched, found, missing, failed, ObjectsProvider}
use nobl9_language_server.Diagnostics.References.{check_referenced_objects}
use nobl9_language_server.Diagnostics.Ranges.{Shape, other_node}
use nobl9_language_server.Diagnostics.Refers.{Reference, Refers}
use nobl9_language_server.Diagnostics.Soundness.{IsSound}
use nobl9_language_server.Diagnostics.Soundness.Silence.{IsSilent, IsKnown}
use nobl9_language_server.Diagnostics.Soundness.Complete.{check_referenced_objects-IsChecked}
use nobl9_language_server.Diagnostics.Provider.{Provider, valid, diagnose_file}
use nobl9_language_server.Diagnostics.Handler.{Published, handle}
use nobl9_language_server.Diagnostics.Handler.Publishing.{IsFaithfulOr, handle-IsFaithful}
use nobl9_language_server.Diagnostics.Provider.Waiting.{diagnose_file-waits}

-- An organisation with projects and without anything else.
abbrev get_project_only : Kind → Fetched Object
get_project_only project_kind = found (record { scope = none; spec = other })
get_project_only _ = missing

abbrev projects_only : ObjectsProvider
projects_only = record {
  get_object = λ kind name project. get_project_only kind;
  get_user = λ id. missing;
  get_roles = failed;
}

abbrev first_line : Bytes → Exec Range
first_line path = ok (new_point_range 1 0)

abbrev lost_service : Object
lost_service = record {
  scope = some (codes "p");
  spec = slo (record {
    service = codes "s";
    alert_policies = [];
    indicator = none;
    no_data_methods = none;
    objectives = [];
  });
}

check_referenced_objects-IsChecked_example :
    IsSound projects_only first_line
      (Refers lost_service)
      (check_referenced_objects projects_only first_line lost_service)
    × ((¬ IsSilent (check_referenced_objects projects_only first_line lost_service))
        ⊎ ((r : Reference) → Refers lost_service r → IsKnown projects_only first_line r))
check_referenced_objects-IsChecked_example =
    check_referenced_objects-IsChecked projects_only first_line lost_service

abbrev provider : Provider
provider = record {
  objects = projects_only;
  get_deprecated_paths = λ kind. [];
  validate = λ o. valid;
  error_text = λ e. [];
  yaml_error = λ e. none;
}

abbrev leaves : Ast
leaves = record { Node = ℕ; view = λ n. other }

abbrev leaf_shape : ℕ → Shape
leaf_shape n = other_node (record { line = 1; column = 1; indent_num = 0 })

abbrev leaf_object : ObjectNode ℕ
leaf_object = record {
  kind = service_kind;
  version = [];
  object = some (record { scope = none; spec = other });
  node = record { node = some 0; start_line = 1; end_line = 1; is_separator = false };
  error = none;
}

-- A file of one object, of which the simple parser made nothing.
abbrev unmatched : File ℕ
unmatched = record {
  uri = codes "u";
  content = codes "{}";
  version = pos 1;
  skip = false;
  objects = leaf_object ∷ [];
  simple_ast = [];
  error = none;
}

diagnose_file-waits_example : diagnose_file provider leaves leaf_shape unmatched ≡ out_of_fuel
diagnose_file-waits_example =
    diagnose_file-waits provider leaves leaf_shape unmatched [] leaf_object [] refl refl refl
      (omega arith)

abbrev warn_at : ℕ → Diagnostic
warn_at line = record {
  range = new_point_range line 0;
  severity = warning;
  source = server_name;
  message = [];
  related = none;
}

handle-IsFaithful_example :
    (r : Option Published) × (handle
        (λ f. ok (warn_at 3 ∷ warn_at 2 ∷ []))
        (codes "u")
        (pos 1)
        (ok unmatched)
        (ok unmatched)
      ≡ ok r)
    × IsFaithfulOr (codes "u") (pos 1) (warn_at 3 ∷ warn_at 2 ∷ []) (ok unmatched) r
handle-IsFaithful_example =
    handle-IsFaithful (λ f. ok (warn_at 3 ∷ warn_at 2 ∷ [])) (codes "u") (pos 1) unmatched
      (ok unmatched) (warn_at 3 ∷ warn_at 2 ∷ []) refl refl
