-- ===== src/Manifest.antt =====
-- What the repository reads of the objects of nobl9-go: the kinds of
-- internal/files/object_node.go, and the fields that internal/diagnostics/provider.go follows.
use nobl9_language_server.Base.{ℕ, ◌==◌, Bool, true, false, Option, none, some, List, [], ◌∷◌}
use nobl9_language_server.Text.{Bytes, codes}

-- The kinds of `decodeV1alphaObject`, and the zero value.
pub data Kind : Type 0 where
  no_kind service_kind slo_kind project_kind agent_kind direct_kind alert_kind : Kind
  alert_method_kind alert_policy_kind alert_silence_kind role_binding_kind : Kind
  data_export_kind annotation_kind user_group_kind budget_adjustment_kind report_kind : Kind

-- A name with the project that it is looked up in.
pub record InProject : Type 0 where
  pub name : Bytes
  pub project : Bytes

pub record Component : Type 0 where
  pub project : Bytes
  pub slo : Bytes
  pub objective : Bytes

-- An objective, with the components of its composite if it has one.
pub record Objective : Type 0 where
  pub name : Bytes
  pub composite : Option (List Component)

pub record MetricSource : Type 0 where
  pub name : Bytes
  pub project : Bytes
  pub kind : Kind

pub record Slo : Type 0 where
  pub service : Bytes
  pub alert_policies : List Bytes
  pub indicator : Option MetricSource
  pub no_data_methods : Option (List InProject)
  pub objectives : List Objective

pub record AlertSilence : Type 0 where
  pub slo : Bytes
  pub alert_policy : InProject

pub record Annotation : Type 0 where
  pub slo : Bytes
  pub objective_name : Bytes

pub record Filters : Type 0 where
  pub projects : List Bytes
  pub services : List InProject
  pub slos : List InProject

pub record RoleBinding : Type 0 where
  pub role_ref : Bytes
  pub project_ref : Bytes
  pub group_ref : Option Bytes
  pub user : Option Bytes

pub data Spec : Type 0 where
  slo : Slo → Spec
  alert_policy : List InProject → Spec
  alert_silence : AlertSilence → Spec
  annotation : Annotation → Spec
  budget_adjustment : List InProject → Spec
  report : Option Filters → Spec
  role_binding : RoleBinding → Spec
  user_group : List Bytes → Spec
  other : Spec

-- An object; only a `ProjectScopedObject` has a project.
pub record Object : Type 0 where
  pub scope : Option Bytes
  pub spec : Spec

unfoldable pub get_project : Object → Bytes
get_project o = elim o.scope [ none ↦ [] | some project ↦ project ]

unfoldable pub is_blank : Bytes → Bool
is_blank [] = true
is_blank (c ∷ cs) = false

-- `Kind.String` of nobl9-go.
unfoldable pub kind_name : Kind → Bytes
unfolding codes
kind_name no_kind = codes "Kind(0)"
kind_name service_kind = codes "Service"
kind_name slo_kind = codes "SLO"
kind_name project_kind = codes "Project"
kind_name agent_kind = codes "Agent"
kind_name direct_kind = codes "Direct"
kind_name alert_kind = codes "Alert"
kind_name alert_method_kind = codes "AlertMethod"
kind_name alert_policy_kind = codes "AlertPolicy"
kind_name alert_silence_kind = codes "AlertSilence"
kind_name role_binding_kind = codes "RoleBinding"
kind_name data_export_kind = codes "DataExport"
kind_name annotation_kind = codes "Annotation"
kind_name user_group_kind = codes "UserGroup"
kind_name budget_adjustment_kind = codes "BudgetAdjustment"
kind_name report_kind = codes "Report"

unfoldable pub kind_number : Kind → ℕ
kind_number no_kind = 0
kind_number service_kind = 1
kind_number slo_kind = 2
kind_number project_kind = 3
kind_number agent_kind = 4
kind_number direct_kind = 5
kind_number alert_kind = 6
kind_number alert_method_kind = 7
kind_number alert_policy_kind = 8
kind_number alert_silence_kind = 9
kind_number role_binding_kind = 10
kind_number data_export_kind = 11
kind_number annotation_kind = 12
kind_number user_group_kind = 13
kind_number budget_adjustment_kind = 14
kind_number report_kind = 15

-- `==` on kinds.
unfoldable pub same_kind : Kind → Kind → Bool
unfolding kind_number
same_kind k l = kind_number k == kind_number l
