-- ===== src/Diagnostics/Existence.antt =====
-- internal/diagnostics/provider.go: the checks of one reference, on the look-ups of the provider and
-- the range of a path in the object's node.
use nobl9_language_server.Base.{
  Bool, false, ◌||◌, none, List, [], ◌∷◌, ◌++◌, if◌then◌else◌, Exec, ok, ◌>>=◌,
}
use nobl9_language_server.Text.{Bytes, codes, equal}
use nobl9_language_server.Manifest.{
  Kind, slo_kind, kind_name, Object, Objective, Spec, slo, is_blank,
}
use nobl9_language_server.Messages.{Range, Diagnostic, error, server_name}
use nobl9_language_server.Diagnostics.{
  Fetched, found, missing, failed, Roles, ObjectsProvider, Diagnostics,
}

-- `slices.ContainsFunc(…, containsRoleFunc(name))`, and the loop over the objectives.
unfoldable pub contains_name : List Bytes → Bytes → Bool
unfolding equal
contains_name [] name = false
contains_name (x ∷ xs) name = equal x name || contains_name xs name

unfoldable pub has_objective : List Objective → Bytes → Bool
unfolding equal
has_objective [] name = false
has_objective (x ∷ xs) name = equal x.name name || has_objective xs name

unfoldable pub missing_message : Kind → Bytes → Bytes
unfolding codes kind_name is_blank
missing_message kind project =
    if is_blank project
    then kind_name kind ++ codes " does not exist"
    else kind_name kind ++ codes " does not exist in Project " ++ project

unfoldable pub role_message : Bool → Bytes
unfolding codes
role_message is_project_role =
    if is_project_role
    then codes "project role does not exist"
    else codes "organization role does not exist"

-- The error that a check reports.
abbrev pub server_error : Range → Bytes → Diagnostic
server_error range message = record {
  range = range;
  severity = error;
  source = server_name;
  message = message;
  related = none;
}

-- `roles != nil` and the switch.
unfoldable pub role_known : Bool → Bytes → Fetched Roles → Bool
unfolding contains_name
role_known is_project_role role_name (found roles) =
    if is_project_role
    then contains_name roles.project_roles role_name
    else contains_name roles.organization_roles role_name
role_known is_project_role role_name _ = false

module _ (objects : ObjectsProvider) (range_at : Bytes → Exec Range) where
  -- The one diagnostic, at the range of the path.
  unfoldable pub report : Bytes → Bytes → Diagnostics
  report path message = do range ← range_at path; ok (server_error range message ∷ [])

  -- Nothing is reported where the look-up fails.
  unfoldable pub check_fetched {ℓ} : {A : Type ℓ} → Bytes → Bytes → Fetched A → Diagnostics
  unfolding report
  check_fetched path message (found x) = ok []
  check_fetched path message missing = report path message
  check_fetched path message failed = ok []

  unfoldable pub check_object_existence : Bytes → Kind → Bytes → Bytes → Diagnostics
  unfolding check_fetched missing_message is_blank
  check_object_existence path kind name project =
      if is_blank name
      then ok []
      else check_fetched path (missing_message kind project) (objects.get_object kind name project)

  -- The cast of the object to an SLO, and the loop over its objectives.
  unfoldable pub check_objectives : Bytes → Bytes → Bytes → Bytes → Spec → Diagnostics
  unfolding report has_objective codes
  check_objectives path objective slo_name project (slo s) =
      if has_objective s.objectives objective
      then ok []
      else report path
          (codes "objective does not exist in SLO " ++ slo_name ++ codes " and Project " ++ project)
  check_objectives path objective slo_name project _ = ok []

  unfoldable pub check_fetched_slo : Bytes → Bytes → Bytes → Bytes → Fetched Object → Diagnostics
  unfolding check_objectives
  check_fetched_slo path objective slo_name project (found o) =
      check_objectives path objective slo_name project o.spec
  check_fetched_slo path objective slo_name project _ = ok []

  unfoldable pub check_objective_existence : Bytes → Bytes → Bytes → Bytes → Diagnostics
  unfolding check_fetched_slo is_blank
  check_objective_existence path objective slo_name project =
      if is_blank objective || is_blank slo_name
      then ok []
      else check_fetched_slo path objective slo_name project
          (objects.get_object slo_kind slo_name project)

  unfoldable pub check_user_existence : Bytes → Bytes → Diagnostics
  unfolding check_fetched is_blank codes
  check_user_existence path id =
      if is_blank id
      then ok []
      else check_fetched path (codes "user does not exist") (objects.get_user id)

  unfoldable pub check_fetched_role : Bytes → Bytes → Bool → Fetched Roles → Diagnostics
  unfolding report role_known role_message
  check_fetched_role path role_name is_project_role failed = ok []
  check_fetched_role path role_name is_project_role roles =
      if role_known is_project_role role_name roles
      then ok []
      else report path (role_message is_project_role)

  unfoldable pub check_role_existence : Bytes → Bytes → Bool → Diagnostics
  unfolding check_fetched_role is_blank
  check_role_existence path role_name is_project_role =
      if is_blank role_name
      then ok []
      else check_fetched_role path role_name is_project_role objects.get_roles
