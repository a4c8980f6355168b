-- ===== src/Completion/References/Scoping.antt =====
-- Which look-ups the completion of references makes.
use nobl9_language_server.Base.{
  ◌≡◌, refl, ap, false, ◌&&◌, not, Option, List, map, Exec, ok, ◌>>=◌, Option-cases, inl, inr,
  bind_same, if_same,
}
use nobl9_language_server.Text.{Bytes, codes, equal}
use nobl9_language_server.Manifest.{
  Kind, Object, slo_kind, role_binding_kind, user_group_kind, same_kind, is_blank,
}
use nobl9_language_server.YamlAstSimple.Lines.{Line}
use nobl9_language_server.Files.Simple.{Sdk, SimpleObjectNode, find_object_line}
use nobl9_language_server.Diagnostics.{Roles}
use nobl9_language_server.ObjectRef.{Reference, get, is_project_scoped}
use nobl9_language_server.Locate.{get_line_value_for_path, get_project_name_from_ref}
use nobl9_language_server.Completion.References.{
  ObjectsRepo, Items, ◌or_nil◌, complete_object_names, complete_user_ids,
  complete_role_binding_roles, complete_slo_metric_source_name, complete_objective_names,
  complete_reference, complete_references, or_agent, after_trigger, objective_items, reference_item,
  map_value, User, user_item, roles_for,
}

-- Two APIs that may differ only where names of project-scoped objects are asked for without a
-- project, and where an object is asked for without a name or a project.
pub record Agree (a b : ObjectsRepo) : Type 0 where
  pub names :
      (k : Kind) (project : Bytes)
      → (is_blank project && is_project_scoped k) ≡ false
      → a.get_all_names k project ≡ b.get_all_names k project
  pub object :
      (k : Kind) (name project : Bytes)
      → is_blank name ≡ false
      → is_blank project ≡ false
      → a.get_object k name project ≡ b.get_object k name project
  pub users : (phrase : Bytes) → a.get_users phrase ≡ b.get_users phrase
  pub roles : a.get_roles ≡ b.get_roles

module _ (sdk : Sdk) (a b : ObjectsRepo) (agree : Agree a b) where
  same_object_names :
      (node : SimpleObjectNode) (r : Reference)
      → complete_object_names sdk a node r ≡ complete_object_names sdk b node r
  unfolding complete_object_names
  same_object_names node r = bind_same (get_project_name_from_ref node r) _ _ λ project.
      if_same (is_blank project && is_project_scoped r.kind) (λ _. refl)
        λ e.
          ap (λ (x : Exec (List Bytes)). x or_nil λ names. ok (map reference_item names))
            (agree.names r.kind project e)

  same_user_ids : (l : Line) → complete_user_ids sdk a l ≡ complete_user_ids sdk b l
  unfolding complete_user_ids
  same_user_ids l = bind_same (map_value l) _ _ λ phrase.
      ap (λ (x : Exec (List User)). x or_nil λ users. ok (map user_item users)) (agree.users phrase)

  same_roles :
      (node : SimpleObjectNode)
      → complete_role_binding_roles sdk a node ≡ complete_role_binding_roles sdk b node
  unfolding complete_role_binding_roles
  same_roles node =
      ap
        (λ (x : Exec (Option Roles)).
          x or_nil roles_for (find_object_line node (codes "$.spec.projectRef")))
        agree.roles

  same_metric_source :
      (node : SimpleObjectNode) (r : Reference)
      → complete_slo_metric_source_name sdk a node r ≡ complete_slo_metric_source_name sdk b node r
  unfolding complete_slo_metric_source_name
  same_metric_source node r =
      bind_same (get_line_value_for_path node (codes "$.spec.indicator.metricSource.kind")) _ _
        λ raw.
          if_same (sdk.is_kind raw) (λ _. refl)
            λ _. same_object_names node (record r { kind = or_agent (sdk.parse_kind raw) })

  same_objectives :
      (node : SimpleObjectNode) (r : Reference)
      → complete_objective_names sdk a node r ≡ complete_objective_names sdk b node r
  unfolding complete_objective_names
  same_objectives node r = bind_same (get_line_value_for_path node r.slo_path) _ _ λ slo_name.
      if_same (is_blank slo_name) (λ _. refl)
        λ named. bind_same (get_project_name_from_ref node r) _ _ λ project.
          if_same (is_blank project) (λ _. refl)
            λ placed.
              ap (λ (x : Exec (Option Object)). x or_nil objective_items)
                (agree.object slo_kind slo_name project named placed)

  same_reference :
      (node : SimpleObjectNode) (l : Line) (r : Reference)
      → complete_reference sdk a node l r ≡ complete_reference sdk b node l r
  unfolding complete_reference
  same_reference node l r =
      if_same (not (is_blank r.slo_path)) (λ _. same_objectives node r)
        λ _.
          if_same
            (same_kind node.kind slo_kind
              && equal r.path (codes "$.spec.indicator.metricSource.name"))
            (λ _. same_metric_source node r)
            λ _.
              if_same (same_kind node.kind role_binding_kind && equal r.path (codes "$.spec.user"))
                (λ _. same_user_ids l)
                λ _.
                  if_same
                    (same_kind node.kind role_binding_kind && equal r.path (codes "$.spec.roleRef"))
                    (λ _. same_roles node)
                    λ _.
                      if_same
                        (same_kind node.kind user_group_kind
                          && equal r.path (codes "$.spec.members[*].id"))
                        (λ _. same_user_ids l) (λ _. same_object_names node r)

  -- The completion of references is the same for two APIs that agree on users, on roles, on the
  -- names of objects with a project or of a kind that needs none, and on objects with a name and a
  -- project: names of a project-scoped kind are never asked for without a project, and no object is
  -- asked for without a name or without a project.
  pub complete_references-agree :
      (trigger : Option Bytes) (node : SimpleObjectNode) (l : Line)
      → complete_references sdk a trigger node l ≡ complete_references sdk b trigger node l
  unfolding complete_references after_trigger
  complete_references-agree trigger node l = elim (Option-cases (get node.kind l)) [
    | inl e ↦ rw (e, complete_references) refl
    | inr (r, e) ↦
        rw (e, complete_references)
          (ap (λ (x : Items). x >>= λ items. ok (after_trigger sdk a trigger items))
            (same_reference node l r))
  ]
