-- ===== src/Completion/References/Kinds.antt =====
-- The completion of references makes references only.
use nobl9_language_server.Base.{
  refl, ◌&&◌, not, Option, none, some, List, [], ◌∷◌, map, All, inl, inr, ok, err, panic,
  out_of_fuel, ◌>>=◌, if_intro, Option-cases,
}
use nobl9_language_server.Text.{Bytes, codes, equal}
use nobl9_language_server.Manifest.{
  same_kind, is_blank, slo_kind, role_binding_kind, user_group_kind, Objective, Object, slo,
  alert_policy, alert_silence, annotation, budget_adjustment, report, role_binding, user_group,
  other,
}
use nobl9_language_server.YamlAstSimple.Lines.{Line}
use nobl9_language_server.Diagnostics.{Roles}
use nobl9_language_server.Files.Simple.{Sdk, SimpleObjectNode, find_object_line}
use nobl9_language_server.ObjectRef.{Reference, get, is_project_scoped}
use nobl9_language_server.Locate.{get_line_value_for_path, get_project_name_from_ref}
use nobl9_language_server.Completion.{Item, reference_completion}
use nobl9_language_server.Completion.References.{
  ObjectsRepo, Items, reference_item, user_item, map_value, roles_for, objective_items,
  complete_object_names, complete_user_ids, complete_role_binding_roles,
  complete_slo_metric_source_name, complete_objective_names, complete_reference, with_blank,
  after_trigger, complete_references, or_agent,
}
use nobl9_language_server.Completion.Kinds.{AllOf, AllOf-bind, AllOf-or_nil, All-map, HasKind}

abbrev pub IsReference : Item → Type 0
IsReference = HasKind reference_completion

module _ (sdk : Sdk) (repo : ObjectsRepo) where
  object_names-kind :
      (node : SimpleObjectNode) (r : Reference)
      → AllOf IsReference (complete_object_names sdk repo node r)
  unfolding complete_object_names
  object_names-kind node r = AllOf-bind IsReference (get_project_name_from_ref node r) _ λ project.
      if_intro {A = Items} (λ x. AllOf IsReference x) (is_blank project && is_project_scoped r.kind)
        (λ _. tt)
        λ _.
          AllOf-or_nil IsReference (repo.get_all_names r.kind project) _
            λ names. All-map IsReference reference_item names (λ n. refl)

  user_ids-kind : (l : Line) → AllOf IsReference (complete_user_ids sdk repo l)
  unfolding complete_user_ids
  user_ids-kind l = AllOf-bind IsReference (map_value l) _ λ phrase.
      AllOf-or_nil IsReference (repo.get_users phrase) _
        λ users. All-map IsReference user_item users (λ u. refl)

  roles_for-kind :
      (line : Option Line) (roles : Option Roles) → AllOf IsReference (roles_for line roles)
  roles_for-kind none none = tt
  roles_for-kind (some l) none = tt
  roles_for-kind none (some roles) =
      All-map IsReference reference_item roles.organization_roles (λ n. refl)
  roles_for-kind (some l) (some roles) =
      All-map IsReference reference_item roles.project_roles (λ n. refl)

  roles-kind :
      (node : SimpleObjectNode) → AllOf IsReference (complete_role_binding_roles sdk repo node)
  unfolding complete_role_binding_roles
  roles-kind node =
      AllOf-or_nil IsReference repo.get_roles _
        (roles_for-kind (find_object_line node (codes "$.spec.projectRef")))

  metric_source-kind :
      (node : SimpleObjectNode) (r : Reference)
      → AllOf IsReference (complete_slo_metric_source_name sdk repo node r)
  unfolding complete_slo_metric_source_name
  metric_source-kind node r =
      AllOf-bind IsReference
        (get_line_value_for_path node (codes "$.spec.indicator.metricSource.kind")) _
        λ raw.
          if_intro {A = Items} (λ x. AllOf IsReference x) (sdk.is_kind raw) (λ _. tt)
            λ _. object_names-kind node (record r { kind = or_agent (sdk.parse_kind raw) })

  objective_items-kind : (o : Option Object) → AllOf IsReference (objective_items o)
  objective_items-kind none = tt
  objective_items-kind (some o) =
      elim o.spec
        as (λ s.
          AllOf IsReference (objective_items (some (record { scope = o.scope; spec = s })))) [
            | slo s ↦
                All-map IsReference (λ (x : Objective). reference_item x.name) s.objectives
                  (λ x. refl)
            | alert_policy x ↦ tt
            | alert_silence x ↦ tt
            | annotation x ↦ tt
            | budget_adjustment x ↦ tt
            | report x ↦ tt
            | role_binding x ↦ tt
            | user_group x ↦ tt
            | other ↦ tt
          ]

  objectives-kind :
      (node : SimpleObjectNode) (r : Reference)
      → AllOf IsReference (complete_objective_names sdk repo node r)
  unfolding complete_objective_names
  objectives-kind node r =
      AllOf-bind IsReference (get_line_value_for_path node r.slo_path) _ λ slo_name.
        if_intro {A = Items} (λ x. AllOf IsReference x) (is_blank slo_name) (λ _. tt)
          λ _. AllOf-bind IsReference (get_project_name_from_ref node r) _ λ project.
            if_intro {A = Items} (λ x. AllOf IsReference x) (is_blank project) (λ _. tt)
              λ _.
                AllOf-or_nil IsReference (repo.get_object slo_kind slo_name project) _
                  objective_items-kind

  reference-kind :
      (node : SimpleObjectNode) (l : Line) (r : Reference)
      → AllOf IsReference (complete_reference sdk repo node l r)
  unfolding complete_reference
  reference-kind node l r =
      if_intro P (not (is_blank r.slo_path)) (λ _. objectives-kind node r)
        λ _.
          if_intro P
            (same_kind node.kind slo_kind
              && equal r.path (codes "$.spec.indicator.metricSource.name"))
            (λ _. metric_source-kind node r)
            λ _.
              if_intro P
                (same_kind node.kind role_binding_kind && equal r.path (codes "$.spec.user"))
                (λ _. user_ids-kind l)
                λ _.
                  if_intro P
                    (same_kind node.kind role_binding_kind && equal r.path (codes "$.spec.roleRef"))
                    (λ _. roles-kind node)
                    λ _.
                      if_intro P
                        (same_kind node.kind user_group_kind
                          && equal r.path (codes "$.spec.members[*].id"))
                        (λ _. user_ids-kind l) (λ _. object_names-kind node r)
    where
      P : Items → Type 0
      P x = AllOf IsReference x

  with_blanks :
      (items : List Item)
      → All IsReference items
      → All IsReference (map (with_blank sdk repo) items)
  with_blanks [] h = tt
  with_blanks (i ∷ is) (h, hs) = (h, with_blanks is hs)

  after_trigger-kind :
      (trigger : Option Bytes) (items : List Item)
      → All IsReference items
      → All IsReference (after_trigger sdk repo trigger items)
  unfolding after_trigger
  after_trigger-kind none items h = h
  after_trigger-kind (some c) items h =
      if_intro {A = List Item} (λ x. All IsReference x) (equal c (b':' ∷ []))
        (λ _. with_blanks items h) (λ _. h)

  triggered-kind :
      (trigger : Option Bytes) (r : Items)
      → AllOf IsReference r
      → AllOf IsReference (r >>= λ items. ok (after_trigger sdk repo trigger items))
  triggered-kind trigger (ok items) h = after_trigger-kind trigger items h
  triggered-kind trigger (err e) h = tt
  triggered-kind trigger panic h = tt
  triggered-kind trigger out_of_fuel h = tt

  pub complete_references-kind :
      (trigger : Option Bytes) (node : SimpleObjectNode) (l : Line)
      → AllOf IsReference (complete_references sdk repo trigger node l)
  unfolding complete_references
  complete_references-kind trigger node l = elim (Option-cases (get node.kind l)) [
    | inl e ↦ rw (e, complete_references) tt
    | inr (r, e) ↦
        rw (e, complete_references)
          (triggered-kind trigger (complete_reference sdk repo node l r) (reference-kind node l r))
  ]
