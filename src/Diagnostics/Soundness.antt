-- ===== src/Diagnostics/Soundness.antt =====
-- What the checks of references report: `IsMissing` says of a diagnostic that a look-up found nothing.
pub mod Kinds
pub mod Silence
pub mod Complete
use nobl9_language_server.Base.{
  ℕ, suc, ◌+◌, arith, get_elem?, ◌≡◌, ◌≢◌, refl, sym, ap, ◌∙◌, inl, inr, if_intro, Bool, true,
  false, not, ◌&&◌, ◌||◌, Option, none, some, List, [], ◌∷◌, ◌++◌, if◌then◌else◌, All, All-append,
  Exec, ok, err, panic, out_of_fuel, ◌>>=◌, Error, Bool-cases,
}
use mathlib.Core.Path.{subst}
use nobl9_language_server.Text.{Bytes, codes, equal, equal_refl}
use nobl9_language_server.Manifest.{
  Kind, slo_kind, Object, Objective, Slo, Spec, slo, alert_policy, alert_silence, annotation,
  budget_adjustment, role_binding, user_group, other, is_blank,
}
use nobl9_language_server.Diagnostics.Refers.{
  Reference, to_object, to_objective, to_user, to_role, path_of,
}
use nobl9_language_server.Messages.{Range, Diagnostic}
use nobl9_language_server.Diagnostics.{
  Fetched, found, missing, failed, Roles, ObjectsProvider, Diagnostics, ◌also◌, ◌or◌, unless_any,
  each,
}
use nobl9_language_server.Diagnostics.Existence.{
  contains_name, server_error, missing_message, role_message, has_objective, role_known, report,
  check_fetched, check_object_existence, check_objectives, check_fetched_slo,
  check_objective_existence, check_user_existence, check_fetched_role, check_role_existence,
}

-- No name of a role that a binding can have is this one.
abbrev pub IsUnknown : Bool → Bytes → Fetched Roles → Type 0
IsUnknown is_project_role name failed = ⊥
IsUnknown is_project_role name missing = Unit
IsUnknown true name (found roles) = All (λ x. x ≢ name) roles.project_roles
IsUnknown false name (found roles) = All (λ x. x ≢ name) roles.organization_roles

differs : (x y : Bytes) → equal x y ≡ false → x ≢ y
differs x y h e = cc (h, subst (λ t. equal x t ≡ true) e (equal_refl x))

or_false : (a b : Bool) → a || b ≡ false → (a ≡ false) × (b ≡ false)
or_false true b h = absurd (cc h)
or_false false b h = (refl, h)

unnamed : (s : Bytes) → is_blank s ≡ false → s ≢ []
unfolding is_blank
unnamed [] h = absurd (cc h)
unnamed (c ∷ s) h = λ e. cc e

has_objective-All :
    (os : List Objective) (name : Bytes)
    → has_objective os name ≡ false
    → All (λ x. x.name ≢ name) os
unfolding has_objective
has_objective-All [] name h = tt
has_objective-All (o ∷ os) name h =
    (differs o.name name (or_false _ _ h).0, has_objective-All os name (or_false _ _ h).1)

contains_name-All :
    (xs : List Bytes) (name : Bytes) → contains_name xs name ≡ false → All (λ x. x ≢ name) xs
unfolding contains_name
contains_name-All [] name h = tt
contains_name-All (x ∷ xs) name h =
    (differs x name (or_false _ _ h).0, contains_name-All xs name (or_false _ _ h).1)

role_known-IsUnknown :
    (b : Bool) (name : Bytes) (r : Fetched Roles)
    → r ≢ failed
    → role_known b name r ≡ false
    → IsUnknown b name r
unfolding role_known
role_known-IsUnknown b name failed answered h = absurd (answered refl)
role_known-IsUnknown b name missing answered h = tt
role_known-IsUnknown true name (found roles) answered h =
    contains_name-All roles.project_roles name h
role_known-IsUnknown false name (found roles) answered h =
    contains_name-All roles.organization_roles name h

module _ (objects : ObjectsProvider) (range_at : Bytes → Exec Range)
    (IsReference : Reference → Type 0) where
  -- The diagnostic is about one of these references: the look-ups know nothing of what it names, and
  -- the range is that of its path.
  pub data IsMissing : Diagnostic → Type 0 where
    object_missing :
        (path : Bytes) (kind : Kind) (name project : Bytes) (range : Range)
        → IsReference (to_object path kind name project)
        → name ≢ []
        → objects.get_object kind name project ≡ missing
        → range_at path ≡ ok range
        → IsMissing (server_error range (missing_message kind project))
    objective_missing :
        (path objective name project : Bytes) (o : Object) (s : Slo) (range : Range)
        → IsReference (to_objective path objective name project)
        → objects.get_object slo_kind name project ≡ found o
        → o.spec ≡ slo s
        → All (λ x. x.name ≢ objective) s.objectives
        → range_at path ≡ ok range
        → IsMissing (
            server_error range (
              codes "objective does not exist in SLO " ++ name ++ codes " and Project " ++ project))
    user_missing :
        (path id : Bytes) (range : Range)
        → IsReference (to_user path id)
        → id ≢ []
        → objects.get_user id ≡ missing
        → range_at path ≡ ok range
        → IsMissing (server_error range (codes "user does not exist"))
    role_missing :
        (path name : Bytes) (is_project_role : Bool) (range : Range)
        → IsReference (to_role path name is_project_role)
        → IsUnknown is_project_role name objects.get_roles
        → range_at path ≡ ok range
        → IsMissing (server_error range (role_message is_project_role))

  -- The range of the path of one of the references is this.
  abbrev pub HasRange : Exec Range → Type 0
  HasRange range = (r : Reference) × IsReference r × (range_at (path_of r) ≡ range)

  -- Only such diagnostics are reported, and where there is no result, a reference has no range.
  abbrev pub IsSound : Diagnostics → Type 0
  IsSound (ok ds) = All IsMissing ds
  IsSound (err e) = HasRange (err e)
  IsSound panic = HasRange panic
  IsSound out_of_fuel = HasRange out_of_fuel

  pub also-IsSound : (a b : Diagnostics) → IsSound a → IsSound b → IsSound (a also b)
  unfolding ◌also◌
  also-IsSound (ok ds) (ok es) h k = All-append IsMissing ds es h k
  also-IsSound (ok ds) (err e) h k = k
  also-IsSound (ok ds) panic h k = k
  also-IsSound (ok ds) out_of_fuel h k = k
  also-IsSound (err e) b h k = h
  also-IsSound panic b h k = h
  also-IsSound out_of_fuel b h k = h

  pub or-IsSound : (a b : Diagnostics) → IsSound a → IsSound b → IsSound (a or b)
  unfolding ◌or◌ unless_any
  or-IsSound (ok []) b h k = k
  or-IsSound (ok (d ∷ ds)) b h k = h
  or-IsSound (err e) b h k = h
  or-IsSound panic b h k = h
  or-IsSound out_of_fuel b h k = h

  each_from-IsSound {ℓ} :
      {A : Type ℓ} (f : ℕ → A → Diagnostics) (i : ℕ) (xs : List A)
      → ((k : ℕ) (x : A) → get_elem? xs k ≡ some x → IsSound (f (i + k) x))
      → IsSound (each f i xs)
  unfolding each
  each_from-IsSound f i [] h = tt
  each_from-IsSound f i (x ∷ xs) h =
      also-IsSound (f i x) (each f (suc i) xs)
        (subst (λ n. IsSound (f n x)) (omega arith) (h 0 x refl))
        (each_from-IsSound f (suc i) xs
          (λ k y at'. subst (λ n. IsSound (f n y)) (omega arith) (h (suc k) y at')))

  pub each-IsSound {ℓ} :
      {A : Type ℓ} (f : ℕ → A → Diagnostics) (xs : List A)
      → ((k : ℕ) (x : A) → get_elem? xs k ≡ some x → IsSound (f k x))
      → IsSound (each f 0 xs)
  each-IsSound f xs h =
      each_from-IsSound f 0 xs (λ k x at'. subst (λ n. IsSound (f n x)) (omega arith) (h k x at'))

  report-IsSound :
      (r : Reference) (message : Bytes)
      → IsReference r
      → ((range : Range) → range_at (path_of r) ≡ ok range → IsMissing (server_error range message))
      → IsSound (report objects range_at (path_of r) message)
  unfolding report
  report-IsSound r message is h = go (range_at (path_of r)) refl
    where
      go :
          (o : Exec Range)
          → range_at (path_of r) ≡ o
          → IsSound (o >>= λ range. ok (server_error range message ∷ []))
      go (ok range) e = (h range e, tt)
      go (err x) e = (r, is, e)
      go panic e = (r, is, e)
      go out_of_fuel e = (r, is, e)

  check_fetched-IsSound {ℓ} :
      {A : Type ℓ} (r : Reference) (message : Bytes) (f : Fetched A)
      → IsReference r
      → (f ≡ missing
          → (range : Range) → range_at (path_of r) ≡ ok range
          → IsMissing (server_error range message))
      → IsSound (check_fetched objects range_at (path_of r) message f)
  unfolding check_fetched
  check_fetched-IsSound r message (found x) is h = tt
  check_fetched-IsSound r message missing is h = report-IsSound r message is (h refl)
  check_fetched-IsSound r message failed is h = tt

  pub check_object_existence-IsSound :
      (path : Bytes) (kind : Kind) (name project : Bytes)
      → IsReference (to_object path kind name project)
      → IsSound (check_object_existence objects range_at path kind name project)
  unfolding check_object_existence
  check_object_existence-IsSound path kind name project is =
      if_intro {A = Diagnostics} (λ r. IsSound r) (is_blank name) (λ _. tt)
        (λ named.
          check_fetched-IsSound (to_object path kind name project) (missing_message kind project)
            (objects.get_object kind name project) is
            (λ e range at.
              object_missing path kind name project range is (unnamed name named) e at))

  pub check_user_existence-IsSound :
      (path id : Bytes)
      → IsReference (to_user path id)
      → IsSound (check_user_existence objects range_at path id)
  unfolding check_user_existence
  check_user_existence-IsSound path id is =
      if_intro {A = Diagnostics} (λ r. IsSound r) (is_blank id) (λ _. tt)
        (λ named.
          check_fetched-IsSound (to_user path id) (codes "user does not exist")
            (objects.get_user id) is
            (λ e range at. user_missing path id range is (unnamed id named) e at))

  check_objectives-IsSound :
      (path objective name project : Bytes) (o : Object) (spec : Spec)
      → IsReference (to_objective path objective name project)
      → objects.get_object slo_kind name project ≡ found o
      → o.spec ≡ spec
      → IsSound (check_objectives objects range_at path objective name project spec)
  unfolding check_objectives
  check_objectives-IsSound path objective name project o (slo s) is e same =
      if_intro {A = Diagnostics} (λ r. IsSound r) (has_objective s.objectives objective) (λ _. tt)
        (λ none_such. report-IsSound (to_objective path objective name project) _ is (λ range at.
          objective_missing path objective name project o s range is e same
            (has_objective-All s.objectives objective none_such) at))
  check_objectives-IsSound path objective name project o (alert_policy x) is e same = tt
  check_objectives-IsSound path objective name project o (alert_silence x) is e same = tt
  check_objectives-IsSound path objective name project o (annotation x) is e same = tt
  check_objectives-IsSound path objective name project o (budget_adjustment x) is e same = tt
  check_objectives-IsSound path objective name project o (Spec.report x) is e same = tt
  check_objectives-IsSound path objective name project o (role_binding x) is e same = tt
  check_objectives-IsSound path objective name project o (user_group x) is e same = tt
  check_objectives-IsSound path objective name project o other is e same = tt

  check_fetched_slo-IsSound :
      (path objective name project : Bytes) (r : Fetched Object)
      → IsReference (to_objective path objective name project)
      → objects.get_object slo_kind name project ≡ r
      → IsSound (check_fetched_slo objects range_at path objective name project r)
  unfolding check_fetched_slo
  check_fetched_slo-IsSound path objective name project (found o) is e =
      check_objectives-IsSound path objective name project o o.spec is e refl
  check_fetched_slo-IsSound path objective name project missing is e = tt
  check_fetched_slo-IsSound path objective name project failed is e = tt

  pub check_objective_existence-IsSound :
      (path objective name project : Bytes)
      → IsReference (to_objective path objective name project)
      → IsSound (check_objective_existence objects range_at path objective name project)
  unfolding check_objective_existence
  check_objective_existence-IsSound path objective name project is =
      if_intro {A = Diagnostics} (λ r. IsSound r) (is_blank objective || is_blank name) (λ _. tt)
        (λ _.
          check_fetched_slo-IsSound path objective name project
            (objects.get_object slo_kind name project) is refl)

  known_role-IsSound :
      (path name : Bytes) (b : Bool)
      → IsReference (to_role path name b)
      → objects.get_roles ≢ failed
      → IsSound (
          if role_known b name objects.get_roles
          then ok []
          else report objects range_at path (role_message b))
  known_role-IsSound path name b is answered =
      if_intro {A = Diagnostics} (λ r. IsSound r) (role_known b name objects.get_roles) (λ _. tt)
        (λ unknown. report-IsSound (to_role path name b) (role_message b) is (λ range at.
          role_missing path name b range is
            (role_known-IsUnknown b name objects.get_roles answered unknown) at))

  check_fetched_role-IsSound :
      (path name : Bytes) (b : Bool) (r : Fetched Roles)
      → IsReference (to_role path name b)
      → objects.get_roles ≡ r
      → IsSound (check_fetched_role objects range_at path name b r)
  unfolding check_fetched_role
  check_fetched_role-IsSound path name b failed is e = tt
  check_fetched_role-IsSound path name b (found roles) is e =
      subst
        (λ q.
          IsSound
            (if role_known b name q then ok [] else report objects range_at path (role_message b)))
        e (known_role-IsSound path name b is (λ none'. cc))
  check_fetched_role-IsSound path name b missing is e =
      subst
        (λ q.
          IsSound
            (if role_known b name q then ok [] else report objects range_at path (role_message b)))
        e (known_role-IsSound path name b is (λ none'. cc))

  pub check_role_existence-IsSound :
      (path name : Bytes) (b : Bool)
      → IsReference (to_role path name b)
      → IsSound (check_role_existence objects range_at path name b)
  unfolding check_role_existence
  check_role_existence-IsSound path name b is =
      if_intro {A = Diagnostics} (λ r. IsSound r) (is_blank name) (λ _. tt)
        (λ _. check_fetched_role-IsSound path name b objects.get_roles is refl)
