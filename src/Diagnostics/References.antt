-- ===== src/Diagnostics/References.antt =====
-- internal/diagnostics/provider.go: `checkReferencedObjects` and the checks of each kind.
use nobl9_language_server.Base.{
  ℕ, Bool, true, false, not, Option, none, some, List, [], ◌++◌, if◌then◌else◌, Exec, ok,
}
use nobl9_language_server.Text.{Bytes, codes}
use nobl9_language_server.Text.Decimal.{itoa}
use nobl9_language_server.Manifest.{
  Kind, no_kind, service_kind, slo_kind, project_kind, agent_kind, alert_method_kind,
  alert_policy_kind, user_group_kind, InProject, Component, Objective, MetricSource, Slo,
  AlertSilence, Annotation, Filters, RoleBinding, Spec, slo, alert_policy, alert_silence,
  annotation, budget_adjustment, report, role_binding, user_group, other, Object, get_project,
  is_blank,
}
use nobl9_language_server.Messages.{Range}
use nobl9_language_server.Diagnostics.{ObjectsProvider, Diagnostics, ◌also◌, ◌or◌, each}
use nobl9_language_server.Diagnostics.Existence.{
  check_object_existence, check_objective_existence, check_user_existence, check_role_existence,
}

-- `fmt.Sprintf(before + "%d" + behind, i)`.
unfoldable pub at_item : Bytes → ℕ → Bytes → Bytes
at_item before i behind = before ++ (itoa i ++ behind)

abbrev pub is_no_kind : Kind → Bool
is_no_kind no_kind = true
is_no_kind _ = false

-- `manifest.KindAgent` where the metric source has no kind.
abbrev pub source_kind : Kind → Kind
source_kind kind = if is_no_kind kind then agent_kind else kind

module _ (objects : ObjectsProvider) (range_at : Bytes → Exec Range) where
  unfoldable pub check_exists : Bytes → Kind → Bytes → Bytes → Diagnostics
  unfolding check_object_existence
  check_exists = check_object_existence objects range_at

  -- The project at one path, and then the object in it at the other.
  unfoldable pub check_in_project : Bytes → Bytes → Kind → Bytes → Bytes → Diagnostics
  unfolding check_exists ◌or◌
  check_in_project project_path name_path kind name project =
      check_exists project_path project_kind project [] or check_exists name_path kind name project

  -- The same, where the project is `fallback`, unchecked, if the reference names none.
  unfoldable pub check_with_fallback : Bytes → Bytes → Kind → Bytes → Bytes → Bytes → Diagnostics
  unfolding check_in_project check_exists is_blank
  check_with_fallback project_path name_path kind name project fallback =
      if is_blank project
      then check_exists name_path kind name fallback
      else check_in_project project_path name_path kind name project

  unfoldable pub check_user_group : List Bytes → Diagnostics
  unfolding each at_item codes check_user_existence
  check_user_group =
      each
        (λ i id.
          check_user_existence objects range_at (at_item (codes "$.spec.members[") i (codes "].id"))
            id)
        0

  -- `if … != nil`.
  unfoldable pub if_given {ℓ} : {A : Type ℓ} → (A → Diagnostics) → Option A → Diagnostics
  if_given f none = ok []
  if_given f (some x) = f x

  unfoldable pub check_role_binding : RoleBinding → Diagnostics
  unfolding ◌also◌ codes check_exists check_role_existence check_user_existence is_blank if_given
  check_role_binding b =
      check_role_existence objects range_at (codes "$.spec.roleRef") b.role_ref
        (not (is_blank b.project_ref))
      also check_exists (codes "$.spec.projectRef") project_kind b.project_ref []
      also if_given (λ g. check_exists (codes "$.spec.groupRef") user_group_kind g b.project_ref)
          b.group_ref
      also if_given (λ u. check_user_existence objects range_at (codes "$.spec.user") u) b.user

  unfoldable pub check_filtered : Bytes → Kind → List InProject → Diagnostics
  unfolding each at_item codes check_in_project
  check_filtered prefix kind =
      each
        (λ i r.
          check_in_project (at_item prefix i (codes "].project"))
            (at_item prefix i (codes "].name")) kind r.name r.project)
        0

  unfoldable pub check_report : Option Filters → Diagnostics
  unfolding each at_item codes check_filtered check_exists ◌also◌ ◌or◌ if_given
  check_report = if_given λ f.
      each
        (λ i p.
          check_exists (at_item (codes "$.spec.filters.projects[") i (codes "]")) project_kind p [])
        0 f.projects
      or (check_filtered (codes "$.spec.filters.services[") service_kind f.services
          also check_filtered (codes "$.spec.filters.slos[") slo_kind f.slos)

  unfoldable pub check_budget_adjustment : List InProject → Diagnostics
  unfolding check_filtered codes
  check_budget_adjustment = check_filtered (codes "$.spec.filters.slos[") slo_kind

  unfoldable pub check_annotation : Bytes → Annotation → Diagnostics
  unfolding ◌or◌ check_exists check_objective_existence codes
  check_annotation project a =
      check_exists (codes "$.spec.slo") slo_kind a.slo project
      or check_objective_existence objects range_at (codes "$.spec.objectiveName") a.objective_name
          a.slo project

  unfoldable pub check_alert_silence : Bytes → AlertSilence → Diagnostics
  unfolding ◌also◌ check_with_fallback check_exists codes
  check_alert_silence project s =
      check_with_fallback (codes "$.spec.alertPolicy.project") (codes "$.spec.alertPolicy.name")
        alert_policy_kind s.alert_policy.name s.alert_policy.project project
      also check_exists (codes "$.spec.slo") slo_kind s.slo project

  unfoldable pub check_methods : Bytes → Bytes → Bytes → Bytes → List InProject → Diagnostics
  unfolding each at_item check_with_fallback
  check_methods prefix project_end name_end project =
      each
        (λ i m.
          check_with_fallback (at_item prefix i project_end) (at_item prefix i name_end)
            alert_method_kind m.name m.project project)
        0

  unfoldable pub check_alert_policy : Bytes → List InProject → Diagnostics
  unfolding check_methods codes
  check_alert_policy =
      check_methods (codes "$.spec.alertMethods[") (codes "].metadata.project")
        (codes "].metadata.name")

  unfoldable pub check_indicator : Bytes → MetricSource → Diagnostics
  unfolding check_with_fallback codes
  check_indicator project source =
      check_with_fallback (codes "$.spec.indicator.metricSource.project")
        (codes "$.spec.indicator.metricSource.name") (source_kind source.kind) source.name
        source.project project

  unfoldable pub check_anomaly_config : Bytes → List InProject → Diagnostics
  unfolding check_methods codes
  check_anomaly_config =
      check_methods (codes "$.spec.anomalyConfig.noData.alertMethods[") (codes "].project")
        (codes "].name")

  unfoldable pub check_component : ℕ → ℕ → Component → Diagnostics
  unfolding ◌or◌ at_item codes check_exists check_objective_existence
  check_component i j c =
      let prefix =
        at_item
          (at_item (codes "$.spec.objectives[") i (codes "].composite.components.objectives[")) j in
      check_exists (prefix (codes "].project")) project_kind c.project []
      or check_exists (prefix (codes "].slo")) slo_kind c.slo c.project
      or check_objective_existence objects range_at (prefix (codes "].objective")) c.objective c.slo
          c.project

  unfoldable pub check_composite : List Objective → Diagnostics
  unfolding each check_component if_given
  check_composite = each (λ i o. if_given (each (λ j c. check_component i j c) 0) o.composite) 0

  -- A blank name is passed over, here as in the check itself.
  unfoldable pub check_slo : Bytes → Slo → Diagnostics
  unfolding ◌also◌ each at_item codes check_exists check_indicator check_anomaly_config
      check_composite if_given is_blank
  check_slo project s =
      (if is_blank s.service
        then ok []
        else check_exists (codes "$.spec.service") service_kind s.service project)
      also each
          (λ i p.
            if is_blank p
            then ok []
            else check_exists (at_item (codes "$.spec.alertPolicies[") i (codes "]"))
                alert_policy_kind p project)
          0 s.alert_policies
      also if_given (check_indicator project) s.indicator
      also if_given (check_anomaly_config project) s.no_data_methods
      also check_composite s.objectives

  -- The switch of `checkReferencedObjects`.
  unfoldable pub check_spec : Bytes → Spec → Diagnostics
  unfolding check_slo check_alert_policy check_alert_silence check_annotation
      check_budget_adjustment check_report check_role_binding check_user_group
  check_spec project (slo s) = check_slo project s
  check_spec project (alert_policy ms) = check_alert_policy project ms
  check_spec project (alert_silence s) = check_alert_silence project s
  check_spec project (annotation a) = check_annotation project a
  check_spec project (budget_adjustment rs) = check_budget_adjustment rs
  check_spec project (report f) = check_report f
  check_spec project (role_binding b) = check_role_binding b
  check_spec project (user_group ms) = check_user_group ms
  check_spec project other = ok []

  -- `checkForProjectExistence`: an object that is not project-scoped, or has a blank project, passes.
  unfoldable pub check_for_project_existence : Option Bytes → Diagnostics
  unfolding if_given is_blank codes check_exists
  check_for_project_existence = if_given λ project.
      if is_blank project
      then ok []
      else check_exists (codes "$.metadata.project") project_kind project []

  unfoldable pub check_referenced_objects : Object → Diagnostics
  unfolding ◌or◌ check_for_project_existence check_spec get_project
  check_referenced_objects o =
      check_for_project_existence o.scope or check_spec (get_project o) o.spec
