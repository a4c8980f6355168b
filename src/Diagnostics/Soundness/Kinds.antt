-- ===== src/Diagnostics/Soundness/Kinds.antt =====
-- The checks of each kind report only references of the object that the look-ups know nothing of.
use nobl9_language_server.Base.{
  ℕ, ◌≡◌, ◌≢◌, refl, inl, inr, true, false, Bool-cases, if_intro, not, if◌then◌else◌, Option, none,
  some, List, [], ◌∷◌, Exec, get_elem?, ok,
}
use nobl9_language_server.Text.{Bytes, codes}
use nobl9_language_server.Manifest.{
  Kind, no_kind, agent_kind, direct_kind, alert_kind, alert_silence_kind, role_binding_kind,
  data_export_kind, annotation_kind, budget_adjustment_kind, report_kind, project_kind,
  service_kind, slo_kind, alert_policy_kind, user_group_kind, alert_method_kind, InProject,
  Component, Slo, Filters, RoleBinding, Spec, slo, alert_policy, alert_silence, annotation,
  budget_adjustment, report, role_binding, user_group, other, Object, get_project, is_blank,
}
use nobl9_language_server.Messages.{Range}
use nobl9_language_server.Diagnostics.{ObjectsProvider, Diagnostics, ◌also◌, ◌or◌, each}
use nobl9_language_server.Diagnostics.Refers.{
  Reference, to_object, to_role, InIts, InItsOr, IsSourceKind, Item, item, ComponentRefers,
  SpecRefers, service, policy, source, no_data_method, component, method, silenced_policy,
  silenced_slo, annotated_slo, annotated_objective, adjusted_slo, reported_project,
  reported_service, reported_slo, project_role, organization_role, bound_project, bound_group,
  bound_user, member, Refers, own_project, by_spec,
}
use nobl9_language_server.Diagnostics.References.{
  at_item, source_kind, check_exists, check_in_project, check_with_fallback, check_user_group,
  if_given, check_role_binding, check_filtered, check_report, check_budget_adjustment,
  check_annotation, check_alert_silence, check_methods, check_alert_policy, check_indicator,
  check_anomaly_config, check_component, check_composite, check_slo, check_spec,
  check_for_project_existence, check_referenced_objects,
}
use nobl9_language_server.Diagnostics.Soundness.{
  IsSound, also-IsSound, or-IsSound, each-IsSound, check_object_existence-IsSound,
  check_user_existence-IsSound, check_objective_existence-IsSound, check_role_existence-IsSound,
}

blank : (s : Bytes) → is_blank s ≡ true → s ≡ []
unfolding is_blank
blank [] h = refl
blank (c ∷ s) h = absurd (cc h)

not_blank : (s : Bytes) → is_blank s ≡ false → s ≢ []
unfolding is_blank
not_blank [] h = absurd (cc h)
not_blank (c ∷ s) h = λ e. cc e

source_kind-IsSourceKind : (k : Kind) → IsSourceKind k (source_kind k)
source_kind-IsSourceKind no_kind = refl
source_kind-IsSourceKind service_kind = refl
source_kind-IsSourceKind slo_kind = refl
source_kind-IsSourceKind project_kind = refl
source_kind-IsSourceKind agent_kind = refl
source_kind-IsSourceKind direct_kind = refl
source_kind-IsSourceKind alert_kind = refl
source_kind-IsSourceKind alert_method_kind = refl
source_kind-IsSourceKind alert_policy_kind = refl
source_kind-IsSourceKind alert_silence_kind = refl
source_kind-IsSourceKind role_binding_kind = refl
source_kind-IsSourceKind data_export_kind = refl
source_kind-IsSourceKind annotation_kind = refl
source_kind-IsSourceKind user_group_kind = refl
source_kind-IsSourceKind budget_adjustment_kind = refl
source_kind-IsSourceKind report_kind = refl

module _ (objects : ObjectsProvider) (range_at : Bytes → Exec Range)
    (IsReference : Reference → Type 0) where
  abbrev Ok : Diagnostics → Type 0
  Ok = IsSound objects range_at IsReference

  both : (a b : Diagnostics) → Ok a → Ok b → Ok (a also b)
  both = also-IsSound objects range_at IsReference

  either : (a b : Diagnostics) → Ok a → Ok b → Ok (a or b)
  either = or-IsSound objects range_at IsReference

  all_of {ℓ} :
      {A : Type ℓ} (f : ℕ → A → Diagnostics) (xs : List A)
      → ((k : ℕ) (x : A) → get_elem? xs k ≡ some x → Ok (f k x))
      → Ok (each f 0 xs)
  all_of = each-IsSound objects range_at IsReference

  exists-IsSound :
      (path : Bytes) (kind : Kind) (name project : Bytes)
      → IsReference (to_object path kind name project)
      → Ok (check_exists objects range_at path kind name project)
  unfolding check_exists
  exists-IsSound = check_object_existence-IsSound objects range_at IsReference

  -- Where a name is given.
  given_name-IsSound :
      (path : Bytes) (kind : Kind) (name project : Bytes)
      → IsReference (to_object path kind name project)
      → Ok (if is_blank name then ok [] else check_exists objects range_at path kind name project)
  given_name-IsSound path kind name project h =
      if_intro {A = Diagnostics} (λ r. Ok r) (is_blank name) (λ _. tt)
        (λ _. exists-IsSound path kind name project h)

  in_project-IsSound :
      (pp np : Bytes) (kind : Kind) (x : InProject)
      → ((r : Reference) → InIts pp np kind x r → IsReference r)
      → Ok (check_in_project objects range_at pp np kind x.name x.project)
  unfolding check_in_project
  in_project-IsSound pp np kind x h =
      either _ _ (exists-IsSound pp project_kind x.project [] (h _ (inl refl)))
        (exists-IsSound np kind x.name x.project (h _ (inr refl)))

  with_fallback-IsSound :
      (pp np : Bytes) (kind : Kind) (x : InProject) (own : Bytes)
      → ((r : Reference) → InItsOr own pp np kind x r → IsReference r)
      → Ok (check_with_fallback objects range_at pp np kind x.name x.project own)
  unfolding check_with_fallback
  with_fallback-IsSound pp np kind x own h =
      if_intro {A = Diagnostics} (λ r. Ok r) (is_blank x.project)
        (λ none'. exists-IsSound np kind x.name own (h _ (inl (blank x.project none', refl))))
        (λ given. in_project-IsSound pp np kind x (λ r i. h r (inr (not_blank x.project given, i))))

  given-IsSound {ℓ} :
      {A : Type ℓ} (f : A → Diagnostics) (o : Option A)
      → ((x : A) → o ≡ some x → Ok (f x))
      → Ok (if_given objects range_at f o)
  unfolding if_given
  given-IsSound f none h = tt
  given-IsSound f (some x) h = h x refl

  filtered-IsSound :
      (prefix : Bytes) (kind : Kind) (xs : List InProject)
      → ((i : ℕ) (x : InProject) (r : Reference)
          → Item xs i x
          → InIts (item prefix i (codes "].project")) (item prefix i (codes "].name")) kind x r
          → IsReference r)
      → Ok (check_filtered objects range_at prefix kind xs)
  unfolding check_filtered at_item
  filtered-IsSound prefix kind xs h =
      all_of _ xs (λ i x at'. in_project-IsSound _ _ kind x (λ r is. h i x r at' is))

  methods-IsSound :
      (prefix pe ne own : Bytes) (ms : List InProject)
      → ((i : ℕ) (m : InProject) (r : Reference)
          → Item ms i m
          → InItsOr own (item prefix i pe) (item prefix i ne) alert_method_kind m r
          → IsReference r)
      → Ok (check_methods objects range_at prefix pe ne own ms)
  unfolding check_methods at_item
  methods-IsSound prefix pe ne own ms h =
      all_of _ ms
        (λ i m at'. with_fallback-IsSound _ _ alert_method_kind m own (λ r is. h i m r at' is))

  component-IsSound :
      (i j : ℕ) (c : Component)
      → ((r : Reference) → ComponentRefers i j c r → IsReference r)
      → Ok (check_component objects range_at i j c)
  unfolding check_component at_item
  component-IsSound i j c h =
      either _ _ (exists-IsSound _ project_kind c.project [] (h _ (inl refl))) (
        either _ _ (exists-IsSound _ slo_kind c.slo c.project (h _ (inr (inl refl)))) (
          check_objective_existence-IsSound objects range_at IsReference _ c.objective c.slo
            c.project (h _ (inr (inr refl)))))

  -- The references of a specification are among the references.
  abbrev AreReferences : Bytes → Spec → Type 0
  AreReferences own spec = (r : Reference) → SpecRefers own spec r → IsReference r

  slo-IsSound :
      (own : Bytes) (s : Slo) → AreReferences own (slo s) → Ok (check_slo objects range_at own s)
  unfolding check_slo check_indicator check_anomaly_config check_composite at_item
  slo-IsSound own s h =
      both _ _ (given_name-IsSound _ service_kind s.service own (h _ (service s))) (
        both _ _
          (all_of _ s.alert_policies
            (λ i p at'. given_name-IsSound _ alert_policy_kind p own (h _ (policy s i p at'))))
          (both _ _
            (given-IsSound _ s.indicator (λ m is.
              with_fallback-IsSound _ _ (source_kind m.kind)
                (record { name = m.name; project = m.project }) own
                (λ r in'.
                  h r
                    (source s m (source_kind m.kind) r is (source_kind-IsSourceKind m.kind) in'))))
            (both _ _
              (given-IsSound _ s.no_data_methods (λ ms is.
                methods-IsSound (codes "$.spec.anomalyConfig.noData.alertMethods[")
                  (codes "].project") (codes "].name") own ms
                  (λ i m r at' in'. h r (no_data_method s ms i m r is at' in'))))
              (all_of _ s.objectives (λ i o at'. given-IsSound _ o.composite (λ cs is.
                all_of _ cs (λ j c at''.
                  component-IsSound i j c
                    (λ r of'. h r (component s i j o cs c r at' is at'' of')))))))))

  role_binding-IsSound :
      (own : Bytes) (b : RoleBinding)
      → AreReferences own (role_binding b)
      → Ok (check_role_binding objects range_at b)
  unfolding check_role_binding
  role_binding-IsSound own b h =
      both _ _
        (check_role_existence-IsSound objects range_at IsReference _ b.role_ref
          (not (is_blank b.project_ref)) role)
        (both _ _ (exists-IsSound _ project_kind b.project_ref [] (h _ (bound_project b))) (
          both _ _
            (given-IsSound _ b.group_ref
              (λ g is. exists-IsSound _ user_group_kind g b.project_ref (h _ (bound_group b g is))))
            (given-IsSound _ b.user (λ u is.
              check_user_existence-IsSound objects range_at IsReference _ u
                (h _ (bound_user b u is))))))
    where
      role :
          IsReference (to_role (codes "$.spec.roleRef") b.role_ref (not (is_blank b.project_ref)))
      role = elim (Bool-cases (is_blank b.project_ref)) [
        | inl e ↦ rw e (h _ (organization_role b (blank b.project_ref e)))
        | inr e ↦ rw e (h _ (project_role b (not_blank b.project_ref e)))
      ]

  report-IsSound :
      (own : Bytes) (f : Option Filters)
      → AreReferences own (report f)
      → Ok (check_report objects range_at f)
  unfolding check_report if_given at_item
  report-IsSound own none h = tt
  report-IsSound own (some f) h =
      either _ _
        (all_of _ f.projects
          (λ i p at'. exists-IsSound _ project_kind p [] (h _ (reported_project f i p at'))))
        (both _ _
          (filtered-IsSound (codes "$.spec.filters.services[") service_kind f.services
            (λ i x r at' is. h r (reported_service f i x r at' is)))
          (filtered-IsSound (codes "$.spec.filters.slos[") slo_kind f.slos
            (λ i x r at' is. h r (reported_slo f i x r at' is))))

  spec-IsSound :
      (own : Bytes) (spec : Spec)
      → AreReferences own spec
      → Ok (check_spec objects range_at own spec)
  unfolding check_spec check_alert_policy check_alert_silence check_annotation
      check_budget_adjustment check_user_group at_item
  spec-IsSound own (slo s) h = slo-IsSound own s h
  spec-IsSound own (alert_policy ms) h =
      methods-IsSound (codes "$.spec.alertMethods[") (codes "].metadata.project")
        (codes "].metadata.name") own ms (λ i m r at' is. h r (method ms i m r at' is))
  spec-IsSound own (alert_silence s) h =
      both _ _
        (with_fallback-IsSound _ _ alert_policy_kind s.alert_policy own
          (λ r is. h r (silenced_policy s r is)))
        (exists-IsSound _ slo_kind s.slo own (h _ (silenced_slo s)))
  spec-IsSound own (annotation a) h =
      either _ _ (exists-IsSound _ slo_kind a.slo own (h _ (annotated_slo a))) (
        check_objective_existence-IsSound objects range_at IsReference _ a.objective_name a.slo own
          (h _ (annotated_objective a)))
  spec-IsSound own (budget_adjustment xs) h =
      filtered-IsSound (codes "$.spec.filters.slos[") slo_kind xs
        (λ i x r at' is. h r (adjusted_slo xs i x r at' is))
  spec-IsSound own (report f) h = report-IsSound own f h
  spec-IsSound own (role_binding b) h = role_binding-IsSound own b h
  spec-IsSound own (user_group ids) h = all_of _ ids (λ i id at'.
      check_user_existence-IsSound objects range_at IsReference _ id (h _ (member ids i id at')))
  spec-IsSound own other h = tt

module _ (objects : ObjectsProvider) (range_at : Bytes → Exec Range) where
  project-IsSound :
      (o : Object)
      → IsSound objects range_at (Refers o) (check_for_project_existence objects range_at o.scope)
  unfolding check_for_project_existence
  project-IsSound o = given-IsSound objects range_at (Refers o) _ o.scope (λ project is.
      if_intro {A = Diagnostics} (λ r. IsSound objects range_at (Refers o) r) (is_blank project)
        (λ _. tt)
        (λ named.
          exists-IsSound objects range_at (Refers o) _ project_kind project []
            (own_project project is (not_blank project named))))

  -- The checks of an object's references end with diagnostics each of which is about a reference of
  -- the object: the look-ups know nothing of what it names, and the range is that of its path. They
  -- fail only as the range of the path of a reference of the object does.
  pub check_referenced_objects-IsSound :
      (o : Object)
      → IsSound objects range_at (Refers o) (check_referenced_objects objects range_at o)
  unfolding check_referenced_objects
  check_referenced_objects-IsSound o =
      or-IsSound objects range_at (Refers o) _ _ (project-IsSound o)
        (spec-IsSound objects range_at (Refers o) (get_project o) o.spec (λ r is. by_spec r is))
