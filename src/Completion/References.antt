-- ===== src/Completion/References.antt =====
-- internal/completion/references_completion.go.
pub mod MetricSource
pub mod Scoping
pub mod Kinds
mod Tests
use nobl9_language_server.Base.{
  ◌&&◌, Option, none, some, List, [], ◌∷◌, ◌++◌, map, not, if◌then◌else◌, Exec, ok, err, panic,
  out_of_fuel, ◌>>=◌,
}
use nobl9_language_server.Text.{Bytes, codes, equal}
use nobl9_language_server.Manifest.{
  Kind, no_kind, slo_kind, agent_kind, role_binding_kind, user_group_kind, same_kind, is_blank,
  Object, Objective, slo, Spec,
}
use nobl9_language_server.YamlAstSimple.Lines.{Line, get_map_value}
use nobl9_language_server.Files.Simple.{Sdk, SimpleObjectNode, find_object_line}
use nobl9_language_server.ObjectRef.{Reference, get, is_project_scoped}
use nobl9_language_server.Diagnostics.{Roles}
use nobl9_language_server.Locate.{get_line_value_for_path, get_project_name_from_ref}
use nobl9_language_server.Completion.{
  Item, reference_completion, no_format, plain_text, Params, Provider, values_completion,
}

pub record User : Type 0 where
  pub user_id : Bytes
  pub first_name : Bytes
  pub last_name : Bytes
  pub email : Bytes

-- `objectsRepo`.
pub record ObjectsRepo : Type 0 where
  pub get_all_names : Kind → Bytes → Exec (List Bytes)
  pub get_object : Kind → Bytes → Bytes → Exec (Option Object)
  pub get_users : Bytes → Exec (List User)
  pub get_roles : Exec (Option Roles)

abbrev pub Items : Type 0
Items = Exec (List Item)

-- An error is logged, and nothing is completed.
infixl 5 ◌or_nil◌
abbrev pub ◌or_nil◌ {ℓ} : {A : Type ℓ} → Exec A → (A → Items) → Items
(ok a) or_nil f = f a
(err e) or_nil f = ok []
panic or_nil f = panic
out_of_fuel or_nil f = out_of_fuel

abbrev pub reference_item : Bytes → Item
reference_item name = record {
  label = name;
  kind = reference_completion;
  insert_text = [];
  format = no_format;
}

-- `fmt.Sprintf("%s %s (%s)", …)`.
unfoldable pub user_label : User → Bytes
user_label u = u.first_name ++ b' ' ∷ (u.last_name ++ b' ' ∷ b'(' ∷ (u.email ++ b')' ∷ []))

abbrev pub user_item : User → Item
user_item u = record {
  label = user_label u;
  kind = reference_completion;
  insert_text = u.user_id;
  format = plain_text;
}

-- The value of a line, which may panic.
abbrev pub map_value : Line → Exec Bytes
map_value l = elim (get_map_value l) [ none ↦ panic | some v ↦ ok v ]

-- The roles of a binding, by whether it has a project; a nil response is read all the same.
abbrev pub roles_for : Option Line → Option Roles → Items
roles_for line none = panic
roles_for none (some roles) = ok (map reference_item roles.organization_roles)
roles_for (some l) (some roles) = ok (map reference_item roles.project_roles)

-- The cast to an SLO.
abbrev pub objective_items : Option Object → Items
objective_items none = ok []
objective_items (some o) = elim o.spec [
  | slo s ↦ ok (map (λ (objective : Objective). reference_item objective.name) s.objectives)
  | _ ↦ ok []
]

unfoldable pub or_agent : Kind → Kind
unfolding same_kind
or_agent kind = if same_kind kind no_kind then agent_kind else kind

module _ (sdk : Sdk) (repo : ObjectsRepo) where
  unfoldable pub complete_object_names : SimpleObjectNode → Reference → Items
  unfolding get_project_name_from_ref is_blank is_project_scoped
  complete_object_names node r = get_project_name_from_ref node r >>= λ project.
      if is_blank project && is_project_scoped r.kind
      then ok []
      else repo.get_all_names r.kind project or_nil λ names. ok (map reference_item names)

  unfoldable pub complete_user_ids : Line → Items
  unfolding user_label get_map_value
  complete_user_ids line =
      map_value line >>= λ phrase. repo.get_users phrase or_nil λ users. ok (map user_item users)

  unfoldable pub complete_role_binding_roles : SimpleObjectNode → Items
  unfolding codes find_object_line
  complete_role_binding_roles node =
      repo.get_roles or_nil roles_for (find_object_line node (codes "$.spec.projectRef"))

  -- The test of the error is `err == nil`.
  unfoldable pub complete_slo_metric_source_name : SimpleObjectNode → Reference → Items
  unfolding codes get_line_value_for_path or_agent complete_object_names
  complete_slo_metric_source_name node r =
      get_line_value_for_path node (codes "$.spec.indicator.metricSource.kind") >>= λ raw_kind.
      if sdk.is_kind raw_kind
      then ok []
      else complete_object_names node (record r { kind = or_agent (sdk.parse_kind raw_kind) })

  unfoldable pub complete_objective_names : SimpleObjectNode → Reference → Items
  unfolding get_line_value_for_path is_blank get_project_name_from_ref
  complete_objective_names node r = get_line_value_for_path node r.slo_path >>= λ slo_name.
      if is_blank slo_name
      then ok []
      else (get_project_name_from_ref node r >>= λ project.
          if is_blank project
          then ok []
          else repo.get_object slo_kind slo_name project or_nil objective_items)

  -- The switch.
  unfoldable pub complete_reference : SimpleObjectNode → Line → Reference → Items
  unfolding codes equal same_kind is_blank complete_objective_names complete_slo_metric_source_name
      complete_user_ids complete_role_binding_roles complete_object_names
  complete_reference node line r =
      if not (is_blank r.slo_path)
      then complete_objective_names node r
      else if same_kind node.kind slo_kind
          && equal r.path (codes "$.spec.indicator.metricSource.name")
      then complete_slo_metric_source_name node r
      else if same_kind node.kind role_binding_kind && equal r.path (codes "$.spec.user")
      then complete_user_ids line
      else if same_kind node.kind role_binding_kind && equal r.path (codes "$.spec.roleRef")
      then complete_role_binding_roles node
      else if same_kind node.kind user_group_kind && equal r.path (codes "$.spec.members[*].id")
      then complete_user_ids line
      else complete_object_names node r

  -- The labels get a blank in front where a colon triggered the completion.
  abbrev pub with_blank : Item → Item
  with_blank item = record item { label = b' ' ∷ item.label }

  unfoldable pub after_trigger : Option Bytes → List Item → List Item
  unfolding equal
  after_trigger none items = items
  after_trigger (some c) items = if equal c (b':' ∷ []) then map with_blank items else items

  unfoldable pub complete_references : Option Bytes → SimpleObjectNode → Line → Items
  unfolding get complete_reference after_trigger
  complete_references trigger node line = elim (get node.kind line) [
    | none ↦ ok []
    | some r ↦ complete_reference node line r >>= λ items. ok (after_trigger trigger items)
  ]

  abbrev pub references_provider : Provider
  references_provider = record {
    provider_type = values_completion;
    complete = λ params file node line. complete_references params.trigger_character node line;
  }
