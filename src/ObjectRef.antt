-- ===== src/ObjectRef.antt =====
-- internal/objectref/references.go.
pub mod Filling
mod Tests
use nobl9_language_server.Base.{
  ℕ, zero, suc, ◌+◌, Bool, true, false, ◌&&◌, ◌||◌, not, Option, none, some, List, [], ◌∷◌, ◌++◌,
  ◌==◌, if◌then◌else◌, drop,
}
use mathlib.Core.Option
use nobl9_language_server.Text.{Bytes, codes, equal, has_prefix, index}
use nobl9_language_server.Text.Decimal.{itoa, value_from, is_digit}
use nobl9_language_server.Manifest.{
  Kind, no_kind, service_kind, slo_kind, project_kind, agent_kind, direct_kind, alert_method_kind,
  alert_policy_kind, alert_silence_kind, role_binding_kind, data_export_kind, annotation_kind,
  user_group_kind, budget_adjustment_kind, report_kind, same_kind, is_blank,
}
use nobl9_language_server.YamlAstSimple.Lines.{Line}

pub record Reference : Type 0 where
  pub path : Bytes
  pub kind : Kind
  pub project_path : Bytes
  pub slo_path : Bytes
  pub applies_to : List Kind

abbrev reference : Bytes → Kind → Bytes → Bytes → List Kind → Reference
reference path kind project_path slo_path applies_to = record {
  path = path;
  kind = kind;
  project_path = project_path;
  slo_path = slo_path;
  applies_to = applies_to;
}

unfoldable pub project_scoped_kinds : List Kind
project_scoped_kinds =
    slo_kind ∷ service_kind ∷ agent_kind ∷ alert_policy_kind ∷ alert_silence_kind
    ∷ alert_method_kind ∷ direct_kind ∷ data_export_kind ∷ annotation_kind ∷ []

-- `slices.Contains`.
unfoldable pub contains_kind : List Kind → Kind → Bool
unfolding same_kind
contains_kind [] k = false
contains_kind (l ∷ ls) k = same_kind l k || contains_kind ls k

unfoldable pub is_project_scoped : Kind → Bool
unfolding contains_kind project_scoped_kinds
is_project_scoped k = contains_kind project_scoped_kinds k

-- The literal of `objectReferences`.
unfoldable pub references : List Reference
unfolding codes project_scoped_kinds
references =
    reference (codes "$.metadata.project") project_kind [] [] project_scoped_kinds
    ∷ reference (codes "$.spec.alertMethods[*].metadata.name") alert_method_kind
        (codes "$.spec.alertMethods[%d].metadata.project") [] (alert_policy_kind ∷ [])
    ∷ reference (codes "$.spec.alertMethods[*].metadata.project") project_kind [] []
        (alert_policy_kind ∷ [])
    ∷ reference (codes "$.spec.slo") slo_kind (codes "$.metadata.project") []
        (alert_silence_kind ∷ [])
    ∷ reference (codes "$.spec.alertPolicy.name") alert_policy_kind
        (codes "$.spec.alertPolicy.project") [] (alert_silence_kind ∷ [])
    ∷ reference (codes "$.spec.alertPolicy.project") project_kind [] [] (alert_silence_kind ∷ [])
    ∷ reference (codes "$.spec.slo") slo_kind (codes "$.metadata.project") [] (annotation_kind ∷ [])
    ∷ reference (codes "$.spec.objectiveName") no_kind (codes "$.metadata.project")
        (codes "$.spec.slo") (annotation_kind ∷ [])
    ∷ reference (codes "$.spec.filters.slos[*].name") slo_kind
        (codes "$.spec.filters.slos[%d].project") [] (budget_adjustment_kind ∷ [])
    ∷ reference (codes "$.spec.filters.slos[*].project") slo_kind [] []
        (budget_adjustment_kind ∷ [])
    ∷ reference (codes "$.spec.filters.projects[*]") project_kind [] [] (report_kind ∷ [])
    ∷ reference (codes "$.spec.filters.services[*].name") service_kind
        (codes "$.spec.filters.services[%d].project") [] (report_kind ∷ [])
    ∷ reference (codes "$.spec.filters.services[*].project") project_kind [] [] (report_kind ∷ [])
    ∷ reference (codes "$.spec.filters.slos[*].name") slo_kind
        (codes "$.spec.filters.slos[%d].project") [] (report_kind ∷ [])
    ∷ reference (codes "$.spec.filters.slos[*].project") project_kind [] [] (report_kind ∷ [])
    ∷ reference (codes "$.spec.user") no_kind [] [] (role_binding_kind ∷ [])
    ∷ reference (codes "$.spec.groupRef") user_group_kind [] [] (role_binding_kind ∷ [])
    ∷ reference (codes "$.spec.roleRef") no_kind [] [] (role_binding_kind ∷ [])
    ∷ reference (codes "$.spec.projectRef") project_kind [] [] (role_binding_kind ∷ [])
    ∷ reference (codes "$.spec.members[*].id") no_kind [] [] (user_group_kind ∷ [])
    ∷ reference (codes "$.spec.service") service_kind (codes "$.metadata.project") []
        (slo_kind ∷ [])
    ∷ reference (codes "$.spec.indicator.metricSource.name") no_kind
        (codes "$.spec.indicator.metricSource.project") [] (slo_kind ∷ [])
    ∷ reference (codes "$.spec.indicator.metricSource.project") project_kind [] [] (slo_kind ∷ [])
    ∷ reference (codes "$.spec.alertPolicies") alert_policy_kind (codes "$.metadata.project") []
        (slo_kind ∷ [])
    ∷ reference (codes "$.spec.objectives[*].composite.components.objectives[*].project")
        project_kind [] [] (slo_kind ∷ [])
    ∷ reference (codes "$.spec.objectives[*].composite.components.objectives[*].slo") slo_kind
        (codes "$.spec.objectives[%d].composite.components.objectives[%d].project") []
        (slo_kind ∷ [])
    ∷ reference (codes "$.spec.objectives[*].composite.components.objectives[*].objective") slo_kind
        (codes "$.spec.objectives[%d].composite.components.objectives[%d].project")
        (codes "$.spec.objectives[%d].composite.components.objectives[%d].slo") (slo_kind ∷ [])
    ∷ reference (codes "$.spec.anomalyConfig.noData.alertMethods[*].name") alert_method_kind
        (codes "$.spec.anomalyConfig.noData.alertMethods[%d].project") [] (slo_kind ∷ [])
    ∷ reference (codes "$.spec.anomalyConfig.noData.alertMethods[*].project") project_kind [] []
        (slo_kind ∷ [])
    ∷ []

abbrev pub or_this : Option Reference → Bool → Reference → Option Reference
or_this (some later) here r = some later
or_this none here r = if here then some r else none

-- The maps: a later reference replaces an earlier one of the same kind and path.
unfoldable pub find_reference : List Reference → Kind → Bytes → Option Reference
unfolding contains_kind equal
find_reference [] kind path = none
find_reference (r ∷ rs) kind path =
    or_this (find_reference rs kind path) (contains_kind r.applies_to kind && equal r.path path) r

-- The loop of `calculateReferencedPath`, on whether it is in brackets and the text since the bracket.
-- `strconv.Atoi` of a text that is no number is zero; a sign, or a number of more than 63 bits, does
-- not stand in brackets that the simple parser writes, and is not read.
unfoldable pub number_in : Bytes → ℕ
unfolding value_from is_digit
number_in ds = if all_digits ds then value_from 0 ds else 0
  where
    all_digits : Bytes → Bool
    all_digits [] = true
    all_digits (c ∷ cs) = is_digit c && all_digits cs

unfoldable pub indexes_from : Bool → Bytes → Bytes → List ℕ
unfolding number_in
indexes_from inside read [] = []
indexes_from inside read (c ∷ cs) =
    let opened = indexes_from true read cs in
    let closed = indexes_from false [] cs in
    let kept = indexes_from inside (read ++ c ∷ []) cs in
    let passed = indexes_from inside read cs in
    if c == b'['
    then opened
    else if c == b']'
    then number_in read ∷ closed
    else if inside
    then kept
    else passed

-- `fmt.Sprintf` of a format with `%d` as its one verb.
unfoldable pub extra_arguments : List ℕ → Bytes
unfolding codes itoa
extra_arguments [] = codes ")"
extra_arguments (i ∷ is) = codes ", int=" ++ itoa i ++ extra_arguments is

abbrev pub next_argument : List ℕ → (List ℕ → Bytes) → Bytes
next_argument [] rest = codes "%!d(MISSING)" ++ rest []
next_argument (i ∷ is) rest = itoa i ++ rest is

unfoldable pub sprintf : Bytes → List ℕ → Bytes
unfolding codes itoa extra_arguments
sprintf [] [] = []
sprintf [] (i ∷ is) = codes "%!(EXTRA int=" ++ itoa i ++ extra_arguments is
sprintf (c ∷ []) is = c ∷ sprintf [] is
sprintf (c ∷ d ∷ cs) is =
    if c == b'%' && d == b'd'
    then next_argument is (λ rest. sprintf cs rest)
    else c ∷ sprintf (d ∷ cs) is

unfoldable pub fill_path : List ℕ → Bytes → Bytes
unfolding sprintf
fill_path [] ref_path = ref_path
fill_path (i ∷ is) ref_path = sprintf ref_path (i ∷ is)

unfoldable pub calculate_referenced_path : Bytes → Bytes → Bytes
unfolding indexes_from fill_path
calculate_referenced_path base_path ref_path = fill_path (indexes_from false [] base_path) ref_path

-- The path without the index of a list at its root.
unfoldable pub behind_root_index : Bytes → Bytes
unfolding codes has_prefix index
behind_root_index path =
    if has_prefix (codes "$[") path
    then (elim (index b']' path) [ none ↦ path | some i ↦ drop (i + 1) path ])
    else path

abbrev pub if_any : Bytes → Bytes → Bytes
if_any line_path [] = []
if_any line_path (c ∷ ref_path) = calculate_referenced_path line_path (c ∷ ref_path)

-- What `Get` makes of the reference found.
abbrev pub with_line : Line → Reference → Reference
with_line line r = record {
  path = r.path;
  kind = r.kind;
  project_path = if_any (behind_root_index line.path) r.project_path;
  slo_path = if_any (behind_root_index line.path) r.slo_path;
  applies_to = [];
}

unfoldable pub get : Kind → Line → Option Reference
unfolding find_reference references calculate_referenced_path behind_root_index
get kind line = Option.map (with_line line) (find_reference references kind line.generalized_path)

unfoldable pub fallback_project_path : Reference → Kind → Bytes
unfolding equal codes contains_kind project_scoped_kinds
fallback_project_path r kind =
    if not (equal r.path (codes "$.metadata.project")) && contains_kind project_scoped_kinds kind
    then codes "$.metadata.project"
    else []
