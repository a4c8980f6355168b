-- ===== src/Diagnostics/Refers.antt =====
-- The references of an object, and where in it they stand, as the schema of nobl9-go names its fields:
-- what the checks of internal/diagnostics/provider.go are about.
use nobl9_language_server.Base.{
  ℕ, ◌≡◌, ◌≢◌, ◌⊎◌, Bool, true, false, some, List, [], ◌++◌, get_elem?,
}
use nobl9_language_server.Text.{Bytes, codes}
use nobl9_language_server.Text.Decimal.{itoa}
use nobl9_language_server.Manifest.{
  Kind, no_kind, service_kind, slo_kind, project_kind, agent_kind, alert_method_kind,
  alert_policy_kind, user_group_kind, InProject, Component, Objective, MetricSource, Slo,
  AlertSilence, Annotation, Filters, RoleBinding, Spec, slo, alert_policy, alert_silence,
  annotation, budget_adjustment, report, role_binding, user_group, Object, get_project,
}

-- A reference: its path, and what it names.
pub data Reference : Type 0 where
  to_object : Bytes → Kind → Bytes → Bytes → Reference
  to_objective : Bytes → Bytes → Bytes → Bytes → Reference
  to_user : Bytes → Bytes → Reference
  to_role : Bytes → Bytes → Bool → Reference

abbrev pub path_of : Reference → Bytes
path_of (to_object path kind name project) = path
path_of (to_objective path objective name project) = path
path_of (to_user path id) = path
path_of (to_role path name is_project_role) = path

-- The path of the field of an item.
abbrev pub item : Bytes → ℕ → Bytes → Bytes
item before i behind = before ++ (itoa i ++ behind)

-- A reference to a project and to an object in it.
abbrev pub InIts : Bytes → Bytes → Kind → InProject → Reference → Type 0
InIts project_path name_path kind x r =
    (r ≡ to_object project_path project_kind x.project [])
    ⊎ (r ≡ to_object name_path kind x.name x.project)

-- The same; where no project is named, the object is in the project of the one that refers to it.
abbrev pub InItsOr : Bytes → Bytes → Bytes → Kind → InProject → Reference → Type 0
InItsOr own project_path name_path kind x r =
    ((x.project ≡ []) × (r ≡ to_object name_path kind x.name own))
    ⊎ ((x.project ≢ []) × InIts project_path name_path kind x r)

-- A metric source without a kind is an agent.
abbrev pub IsSourceKind : Kind → Kind → Type 0
IsSourceKind no_kind k = k ≡ agent_kind
IsSourceKind kind k = k ≡ kind

-- The item of a list at an index.
abbrev pub Item {ℓ} : {A : Type ℓ} → List A → ℕ → A → Type ℓ
Item xs i x = get_elem? xs i ≡ some x

-- The path of a field of a component of a composite.
abbrev pub component_path : ℕ → ℕ → Bytes → Bytes
component_path i j field =
    item (item (codes "$.spec.objectives[") i (codes "].composite.components.objectives[")) j field

abbrev pub ComponentRefers : ℕ → ℕ → Component → Reference → Type 0
ComponentRefers i j c r =
    (r ≡ to_object (component_path i j (codes "].project")) project_kind c.project [])
    ⊎ ((r ≡ to_object (component_path i j (codes "].slo")) slo_kind c.slo c.project)
        ⊎ (r ≡ to_objective (component_path i j (codes "].objective")) c.objective c.slo c.project))

-- What an object's specification refers to, in the project of the object.
pub data SpecRefers (own : Bytes) : Spec → Reference → Type 0 where
  service :
      (s : Slo)
      → SpecRefers own (slo s) (to_object (codes "$.spec.service") service_kind s.service own)
  policy :
      (s : Slo) (i : ℕ) (p : Bytes)
      → Item s.alert_policies i p
      → SpecRefers own
          (slo s)
          (to_object (item (codes "$.spec.alertPolicies[") i (codes "]")) alert_policy_kind p own)
  source :
      (s : Slo) (m : MetricSource) (k : Kind) (r : Reference)
      → s.indicator ≡ some m
      → IsSourceKind m.kind k
      → InItsOr own
          (codes "$.spec.indicator.metricSource.project")
          (codes "$.spec.indicator.metricSource.name")
          k
          (record { name = m.name; project = m.project })
          r
      → SpecRefers own (slo s) r
  no_data_method :
      (s : Slo) (ms : List InProject) (i : ℕ) (m : InProject) (r : Reference)
      → s.no_data_methods ≡ some ms
      → Item ms i m
      → InItsOr own
          (item (codes "$.spec.anomalyConfig.noData.alertMethods[") i (codes "].project"))
          (item (codes "$.spec.anomalyConfig.noData.alertMethods[") i (codes "].name"))
          alert_method_kind
          m
          r
      → SpecRefers own (slo s) r
  component :
      (s : Slo) (i j : ℕ) (o : Objective) (cs : List Component) (c : Component) (r : Reference)
      → Item s.objectives i o
      → o.composite ≡ some cs
      → Item cs j c
      → ComponentRefers i j c r
      → SpecRefers own (slo s) r
  method :
      (ms : List InProject) (i : ℕ) (m : InProject) (r : Reference)
      → Item ms i m
      → InItsOr own
          (item (codes "$.spec.alertMethods[") i (codes "].metadata.project"))
          (item (codes "$.spec.alertMethods[") i (codes "].metadata.name"))
          alert_method_kind
          m
          r
      → SpecRefers own (alert_policy ms) r
  silenced_policy :
      (s : AlertSilence) (r : Reference)
      → InItsOr own
          (codes "$.spec.alertPolicy.project")
          (codes "$.spec.alertPolicy.name")
          alert_policy_kind
          s.alert_policy
          r
      → SpecRefers own (alert_silence s) r
  silenced_slo :
      (s : AlertSilence)
      → SpecRefers own (alert_silence s) (to_object (codes "$.spec.slo") slo_kind s.slo own)
  annotated_slo :
      (a : Annotation)
      → SpecRefers own (annotation a) (to_object (codes "$.spec.slo") slo_kind a.slo own)
  annotated_objective :
      (a : Annotation)
      → SpecRefers own
          (annotation a)
          (to_objective (codes "$.spec.objectiveName") a.objective_name a.slo own)
  adjusted_slo :
      (xs : List InProject) (i : ℕ) (x : InProject) (r : Reference)
      → Item xs i x
      → InIts
          (item (codes "$.spec.filters.slos[") i (codes "].project"))
          (item (codes "$.spec.filters.slos[") i (codes "].name"))
          slo_kind
          x
          r
      → SpecRefers own (budget_adjustment xs) r
  reported_project :
      (f : Filters) (i : ℕ) (p : Bytes)
      → Item f.projects i p
      → SpecRefers own
          (report (some f))
          (to_object (item (codes "$.spec.filters.projects[") i (codes "]")) project_kind p [])
  reported_service :
      (f : Filters) (i : ℕ) (x : InProject) (r : Reference)
      → Item f.services i x
      → InIts
          (item (codes "$.spec.filters.services[") i (codes "].project"))
          (item (codes "$.spec.filters.services[") i (codes "].name"))
          service_kind
          x
          r
      → SpecRefers own (report (some f)) r
  reported_slo :
      (f : Filters) (i : ℕ) (x : InProject) (r : Reference)
      → Item f.slos i x
      → InIts
          (item (codes "$.spec.filters.slos[") i (codes "].project"))
          (item (codes "$.spec.filters.slos[") i (codes "].name"))
          slo_kind
          x
          r
      → SpecRefers own (report (some f)) r
  project_role :
      (b : RoleBinding)
      → b.project_ref ≢ []
      → SpecRefers own (role_binding b) (to_role (codes "$.spec.roleRef") b.role_ref true)
  organization_role :
      (b : RoleBinding)
      → b.project_ref ≡ []
      → SpecRefers own (role_binding b) (to_role (codes "$.spec.roleRef") b.role_ref false)
  bound_project :
      (b : RoleBinding)
      → SpecRefers own
          (role_binding b)
          (to_object (codes "$.spec.projectRef") project_kind b.project_ref [])
  bound_group :
      (b : RoleBinding) (g : Bytes)
      → b.group_ref ≡ some g
      → SpecRefers own
          (role_binding b)
          (to_object (codes "$.spec.groupRef") user_group_kind g b.project_ref)
  bound_user :
      (b : RoleBinding) (u : Bytes)
      → b.user ≡ some u
      → SpecRefers own (role_binding b) (to_user (codes "$.spec.user") u)
  member :
      (ids : List Bytes) (i : ℕ) (id : Bytes)
      → Item ids i id
      → SpecRefers own
          (user_group ids)
          (to_user (item (codes "$.spec.members[") i (codes "].id")) id)

-- What an object refers to: its project, and what its specification does.
pub data Refers (o : Object) : Reference → Type 0 where
  own_project :
      (project : Bytes)
      → o.scope ≡ some project
      → project ≢ []
      → Refers o (to_object (codes "$.metadata.project") project_kind project [])
  by_spec : (r : Reference) → SpecRefers (get_project o) o.spec r → Refers o r
