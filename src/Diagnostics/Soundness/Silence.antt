-- ===== src/Diagnostics/Soundness/Silence.antt =====
-- Where nothing is reported, the look-ups know what each reference names.
use mathlib.Core.Path.{subst}
use nobl9_language_server.Base.{
  ℕ, zero, some_same, suc, ◌+◌, ◌≡◌, ◌≢◌, ◌⊎◌, refl, inl, inr, Bool, true, false, Bool-cases,
  if_intro, ◌||◌, if◌then◌else◌, some, List, [], ◌∷◌, All, Exec, get_elem?, ok, err, panic,
  out_of_fuel, ◌>>=◌, arith,
}
use nobl9_language_server.Text.{Bytes, equal, equal→same}
use nobl9_language_server.Manifest.{Kind, slo_kind, Objective, Slo, slo, Object, is_blank}
use nobl9_language_server.Messages.{Range}
use nobl9_language_server.Diagnostics.{
  Fetched, found, missing, failed, Roles, ObjectsProvider, Diagnostics, ◌also◌, ◌or◌, unless_any,
  each,
}
use nobl9_language_server.Diagnostics.Existence.{
  has_objective, contains_name, role_known, report, check_fetched, check_object_existence,
  check_objectives, check_fetched_slo, check_objective_existence, check_user_existence,
  check_fetched_role, check_role_existence, server_error, role_message,
}
use nobl9_language_server.Diagnostics.Refers.{Reference, to_object, to_objective, to_user, to_role}
use nobl9_language_server.Diagnostics.Soundness.{IsUnknown}

-- Nothing is reported.
abbrev pub IsSilent : Diagnostics → Type 0
IsSilent r = r ≡ ok []

pub also-IsSilent : (a b : Diagnostics) → IsSilent (a also b) → IsSilent a × IsSilent b
unfolding ◌also◌
also-IsSilent (ok []) (ok ds) h = (refl, h)
also-IsSilent (ok (d ∷ ds)) (ok es) h = cc
also-IsSilent (ok ds) (err e) h = cc
also-IsSilent (ok ds) panic h = cc
also-IsSilent (ok ds) out_of_fuel h = cc
also-IsSilent (err e) b h = cc
also-IsSilent panic b h = cc
also-IsSilent out_of_fuel b h = cc

pub or-IsSilent : (a b : Diagnostics) → IsSilent (a or b) → IsSilent a × IsSilent b
unfolding ◌or◌ unless_any
or-IsSilent (ok []) b h = (refl, h)
or-IsSilent (ok (d ∷ ds)) b h = cc
or-IsSilent (err e) b h = cc
or-IsSilent panic b h = cc
or-IsSilent out_of_fuel b h = cc

each_from-IsSilent {ℓ} :
    {A : Type ℓ} (f : ℕ → A → Diagnostics) (i : ℕ) (xs : List A)
    → IsSilent (each f i xs)
    → (k : ℕ) (x : A) → get_elem? xs k ≡ some x
    → IsSilent (f (i + k) x)
unfolding each
each_from-IsSilent f i [] h k x e = cc
each_from-IsSilent f i (y ∷ ys) h zero x e =
    let here = (also-IsSilent (f i y) (each f (suc i) ys) h).0 in
    subst (λ n. IsSilent (f n x)) (omega arith) (subst (λ z. IsSilent (f i z)) (some_same e) here)
each_from-IsSilent f i (y ∷ ys) h (suc k) x e =
    subst (λ n. IsSilent (f n x)) (omega arith)
      (each_from-IsSilent f (suc i) ys (also-IsSilent (f i y) (each f (suc i) ys) h).1 k x e)

pub each-IsSilent {ℓ} :
    {A : Type ℓ} (f : ℕ → A → Diagnostics) (xs : List A)
    → IsSilent (each f 0 xs)
    → {k : ℕ} {x : A} → get_elem? xs k ≡ some x
    → IsSilent (f k x)
each-IsSilent f xs h {k} {x} e =
    subst (λ n. IsSilent (f n x)) (omega arith) (each_from-IsSilent f 0 xs h k x e)

all-differ :
    (os : List Objective) (name : Bytes)
    → has_objective os name ≡ true
    → ¬ All (λ x. x.name ≢ name) os
unfolding has_objective
all-differ [] name h all = cc
all-differ (o ∷ os) name h (other', all) = elim (Bool-cases (equal o.name name)) [
  | inl e ↦ other' (equal→same o.name name e)
  | inr e ↦ all-differ os name (rw e at h) all
]

no_name : (xs : List Bytes) (name : Bytes) → contains_name xs name ≡ true → ¬ All (λ x. x ≢ name) xs
unfolding contains_name
no_name [] name h all = cc
no_name (x ∷ xs) name h (other', all) = elim (Bool-cases (equal x name)) [
  | inl e ↦ other' (equal→same x name e)
  | inr e ↦ no_name xs name (rw e at h) all
]

not-IsUnknown :
    (b : Bool) (name : Bytes) (r : Fetched Roles)
    → role_known b name r ≡ true
    → ¬ IsUnknown b name r
unfolding role_known
not-IsUnknown b name failed h u = u
not-IsUnknown b name missing h u = cc
not-IsUnknown true name (found roles) h u = no_name roles.project_roles name h u
not-IsUnknown false name (found roles) h u = no_name roles.organization_roles name h u

module _ (objects : ObjectsProvider) (range_at : Bytes → Exec Range) where
  -- The look-ups know what the reference names, or fail, or it names nothing.
  abbrev pub IsKnown : Reference → Type 0
  IsKnown (to_object path kind name project) =
      (name ≡ []) ⊎ (objects.get_object kind name project ≢ missing)
  IsKnown (to_objective path objective name project) =
      (objective ≡ [])
      ⊎ ((name ≡ [])
          ⊎ ((o : Object) (s : Slo)
              → objects.get_object slo_kind name project ≡ found o
              → o.spec ≡ slo s
              → ¬ All (λ x. x.name ≢ objective) s.objectives))
  IsKnown (to_user path id) = (id ≡ []) ⊎ (objects.get_user id ≢ missing)
  IsKnown (to_role path name is_project_role) =
      (name ≡ []) ⊎ (¬ IsUnknown is_project_role name objects.get_roles)

  report-loud : (path message : Bytes) → ¬ IsSilent (report objects range_at path message)
  unfolding report
  report-loud path message h = go (range_at path) h
    where
      go : (r : Exec Range) → IsSilent (r >>= λ range. ok (server_error range message ∷ [])) → ⊥
      go (ok range) h = cc
      go (err x) h = cc
      go panic h = cc
      go out_of_fuel h = cc

  fetched-IsSilent {ℓ} :
      {A : Type ℓ} (path message : Bytes) (f : Fetched A)
      → IsSilent (check_fetched objects range_at path message f)
      → f ≢ missing
  unfolding check_fetched
  fetched-IsSilent path message (found x) h e = cc
  fetched-IsSilent path message missing h e = report-loud path message h
  fetched-IsSilent path message failed h e = cc

  pub blank : (s : Bytes) → is_blank s ≡ true → s ≡ []
  unfolding is_blank
  blank [] h = refl
  blank (c ∷ s) h = absurd (cc h)

  pub not_blank : (s : Bytes) → is_blank s ≡ false → s ≢ []
  unfolding is_blank
  not_blank [] h = absurd (cc h)
  not_blank (c ∷ s) h = λ e. cc e

  pub object-IsKnown :
      (path : Bytes) (kind : Kind) (name project : Bytes)
      → IsSilent (check_object_existence objects range_at path kind name project)
      → IsKnown (to_object path kind name project)
  unfolding check_object_existence
  object-IsKnown path kind name project =
      if_intro {A = Diagnostics} (λ r. IsSilent r → IsKnown (to_object path kind name project))
        (is_blank name) (λ e _. inl (blank name e))
        (λ _ h. inr (fetched-IsSilent path _ (objects.get_object kind name project) h))

  pub user-IsKnown :
      (path id : Bytes)
      → IsSilent (check_user_existence objects range_at path id)
      → IsKnown (to_user path id)
  unfolding check_user_existence
  user-IsKnown path id =
      if_intro {A = Diagnostics} (λ r. IsSilent r → IsKnown (to_user path id)) (is_blank id)
        (λ e _. inl (blank id e)) (λ _ h. inr (fetched-IsSilent path _ (objects.get_user id) h))

  objectives-IsSilent :
      (path objective name project : Bytes) (s : Slo)
      → IsSilent (check_objectives objects range_at path objective name project (slo s))
      → ¬ All (λ x. x.name ≢ objective) s.objectives
  unfolding check_objectives
  objectives-IsSilent path objective name project s =
      if_intro {A = Diagnostics} (λ r. IsSilent r → ¬ All (λ x. x.name ≢ objective) s.objectives)
        (has_objective s.objectives objective) (λ e _. all-differ s.objectives objective e)
        (λ _ h. absurd (report-loud path _ h))

  pub objective-IsKnown :
      (path objective name project : Bytes)
      → IsSilent (check_objective_existence objects range_at path objective name project)
      → IsKnown (to_objective path objective name project)
  unfolding check_objective_existence check_fetched_slo
  objective-IsKnown path objective name project =
      if_intro {A = Diagnostics}
        (λ r. IsSilent r → IsKnown (to_objective path objective name project))
        (is_blank objective || is_blank name) (λ e _. blanks e)
        (λ _ h. inr (
          inr (λ o s is same. objectives-IsSilent path objective name project s (
            subst
              (λ spec.
                IsSilent (check_objectives objects range_at path objective name project spec))
              same
              (subst
                (λ f. IsSilent (check_fetched_slo objects range_at path objective name project f))
                is h)))))
    where
      blanks :
          is_blank objective || is_blank name ≡ true
          → IsKnown (to_objective path objective name project)
      blanks e = elim (Bool-cases (is_blank objective)) [
        | inl e' ↦ inl (blank objective e')
        | inr e' ↦ inr (inl (blank name (rw e' at e)))
      ]

  pub role-IsKnown :
      (path name : Bytes) (b : Bool)
      → IsSilent (check_role_existence objects range_at path name b)
      → IsKnown (to_role path name b)
  unfolding check_role_existence check_fetched_role
  role-IsKnown path name b =
      if_intro {A = Diagnostics} (λ r. IsSilent r → IsKnown (to_role path name b)) (is_blank name)
        (λ e _. inl (blank name e)) (λ _ h. inr (fetched objects.get_roles h))
    where
      known :
          (r : Fetched Roles)
          → IsSilent
              (if role_known b name r then ok [] else report objects range_at path (role_message b))
          → ¬ IsUnknown b name r
      known r =
          if_intro {A = Diagnostics} (λ x. IsSilent x → ¬ IsUnknown b name r) (role_known b name r)
            (λ e _. not-IsUnknown b name r e) (λ _ h. absurd (report-loud path _ h))

      fetched :
          (r : Fetched Roles)
          → IsSilent (check_fetched_role objects range_at path name b r)
          → ¬ IsUnknown b name r
      fetched failed h = λ u. u
      fetched missing h = known missing h
      fetched (found roles) h = known (found roles) h
