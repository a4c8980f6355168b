-- ===== src/Diagnostics/Soundness/Complete.antt =====
-- Where the checks of an object report nothing, the look-ups know each of its references.
use mathlib.Core.Path.{subst}
use nobl9_language_server.Base.{
  ℕ, ◌≡◌, ◌≢◌, ◌⊎◌, refl, sym, inl, inr, true, false, if_intro, not, if◌then◌else◌, Option, none,
  some, List, [], ◌∷◌, Exec, ok, err, panic, out_of_fuel,
}
use nobl9_language_server.Text.{Bytes, codes}
use nobl9_language_server.Manifest.{
  Kind, no_kind, agent_kind, direct_kind, alert_kind, alert_silence_kind, role_binding_kind,
  data_export_kind, annotation_kind, user_group_kind, budget_adjustment_kind, report_kind, slo_kind,
  project_kind, alert_method_kind, alert_policy_kind, service_kind, InProject, Component, Slo, Spec,
  slo, alert_policy, alert_silence, annotation, budget_adjustment, role_binding, user_group,
  user_group_kind, other, Object, get_project, is_blank,
}
use nobl9_language_server.Messages.{Range}
use nobl9_language_server.Diagnostics.{ObjectsProvider, Diagnostics, each}
use nobl9_language_server.Diagnostics.Existence.{check_object_existence, check_objective_existence}
use nobl9_language_server.Diagnostics.Refers.{
  Reference, to_object, to_role, InIts, InItsOr, IsSourceKind, Item, item, component_path,
  ComponentRefers, SpecRefers, service, policy, source, no_data_method, component, method,
  silenced_policy, silenced_slo, annotated_slo, annotated_objective, adjusted_slo, reported_project,
  reported_service, reported_slo, project_role, organization_role, bound_project, bound_group,
  bound_user, member, Refers, own_project, by_spec,
}
use nobl9_language_server.Diagnostics.References.{
  at_item, source_kind, check_exists, check_in_project, check_with_fallback, check_user_group,
  if_given, check_role_binding, check_filtered, check_report, check_budget_adjustment,
  check_annotation, check_alert_silence, check_methods, check_alert_policy, check_indicator,
  check_anomaly_config, check_component, check_composite, check_slo, check_spec,
  check_for_project_existence, check_referenced_objects,
}
use nobl9_language_server.Diagnostics.Soundness.{IsSound}
use nobl9_language_server.Diagnostics.Soundness.Kinds.{check_referenced_objects-IsSound}
use nobl9_language_server.Diagnostics.Soundness.Silence.{
  IsSilent, also-IsSilent, or-IsSilent, each-IsSilent, IsKnown,
}
use nobl9_language_server.Diagnostics.Soundness.Silence

-- The kind of a metric source.
same_kind : (k l : Kind) → IsSourceKind k l → l ≡ source_kind k
same_kind no_kind l e = e
same_kind service_kind l e = e
same_kind slo_kind l e = e
same_kind project_kind l e = e
same_kind agent_kind l e = e
same_kind direct_kind l e = e
same_kind alert_kind l e = e
same_kind alert_method_kind l e = e
same_kind alert_policy_kind l e = e
same_kind alert_silence_kind l e = e
same_kind role_binding_kind l e = e
same_kind data_export_kind l e = e
same_kind annotation_kind l e = e
same_kind user_group_kind l e = e
same_kind budget_adjustment_kind l e = e
same_kind report_kind l e = e

named : (s : Bytes) → s ≢ [] → not (is_blank s) ≡ true
unfolding is_blank
named [] h = absurd (h refl)
named (c ∷ s) h = refl

unnamed : (s : Bytes) → s ≡ [] → not (is_blank s) ≡ false
unfolding is_blank
unnamed [] h = refl
unnamed (c ∷ s) h = cc

module _ (objects : ObjectsProvider) (range_at : Bytes → Exec Range) where
  abbrev Known : Reference → Type 0
  Known = IsKnown objects range_at

  exists-IsKnown :
      (path : Bytes) (kind : Kind) (name project : Bytes)
      → IsSilent (check_exists objects range_at path kind name project)
      → Known (to_object path kind name project)
  unfolding check_exists
  exists-IsKnown = Silence.object-IsKnown objects range_at

  in_project-IsKnown :
      (pp np : Bytes) (kind : Kind) (x : InProject)
      → IsSilent (check_in_project objects range_at pp np kind x.name x.project)
      → {r : Reference} → InIts pp np kind x r
      → Known r
  unfolding check_in_project check_exists
  in_project-IsKnown pp np kind x h (inl e) =
      subst Known (sym e)
        (Silence.object-IsKnown objects range_at pp project_kind x.project [] (or-IsSilent _ _ h).0)
  in_project-IsKnown pp np kind x h (inr e) =
      subst Known (sym e)
        (Silence.object-IsKnown objects range_at np kind x.name x.project (or-IsSilent _ _ h).1)

  with_fallback-IsKnown :
      (pp np : Bytes) (kind : Kind) (x : InProject) (own : Bytes)
      → IsSilent (check_with_fallback objects range_at pp np kind x.name x.project own)
      → {r : Reference} → InItsOr own pp np kind x r
      → Known r
  unfolding check_with_fallback
  with_fallback-IsKnown pp np kind x own h {r} is =
      if_intro {A = Diagnostics} (λ d. IsSilent d → Known r) (is_blank x.project)
        (λ e h'. without (Silence.blank objects range_at x.project e) h' is)
        (λ e h'. within (Silence.not_blank objects range_at x.project e) h' is) h
    where
      without :
          x.project ≡ []
          → IsSilent (check_exists objects range_at np kind x.name own)
          → InItsOr own pp np kind x r
          → Known r
      without none' h' (inl (_, e)) = subst Known (sym e) (exists-IsKnown np kind x.name own h')
      without none' h' (inr (given, is')) = absurd (given none')

      within :
          x.project ≢ []
          → IsSilent (check_in_project objects range_at pp np kind x.name x.project)
          → InItsOr own pp np kind x r
          → Known r
      within given h' (inl (none', _)) = absurd (given none')
      within given h' (inr (_, is')) = in_project-IsKnown pp np kind x h' is'

  slo_parts :
      (own : Bytes) (s : Slo)
      → IsSilent (check_slo objects range_at own s)
      → IsSilent (
          if is_blank s.service
          then ok []
          else check_exists objects range_at (codes "$.spec.service") service_kind s.service own)
        × IsSilent (
            each
              (λ i p.
                if is_blank p
                then ok []
                else check_exists objects range_at
                    (at_item (codes "$.spec.alertPolicies[") i (codes "]"))
                    alert_policy_kind
                    p
                    own)
              0
              s.alert_policies)
        × IsSilent (if_given objects range_at (check_indicator objects range_at own) s.indicator)
        × IsSilent (
            if_given objects range_at (check_anomaly_config objects range_at own) s.no_data_methods)
        × IsSilent (check_composite objects range_at s.objectives)
  unfolding check_slo
  slo_parts own s h =
      let (a, h1) = also-IsSilent _ _ h in
      let (b, h2) = also-IsSilent _ _ h1 in
      let (c, h3) = also-IsSilent _ _ h2 in let (d, e) = also-IsSilent _ _ h3 in (a, b, c, d, e)

  given_name-IsKnown :
      (path : Bytes) (kind : Kind) (name project : Bytes)
      → IsSilent
          (if is_blank name then ok [] else check_exists objects range_at path kind name project)
      → Known (to_object path kind name project)
  unfolding check_exists
  given_name-IsKnown path kind name project =
      if_intro {A = Diagnostics} (λ r. IsSilent r → Known (to_object path kind name project))
        (is_blank name) (λ e _. inl (Silence.blank objects range_at name e))
        (λ _ h. Silence.object-IsKnown objects range_at path kind name project h)

  component-IsKnown :
      (i j : ℕ) (c : Component)
      → IsSilent (check_component objects range_at i j c)
      → {r : Reference} → ComponentRefers i j c r
      → Known r
  unfolding check_component check_exists at_item
  component-IsKnown i j c h {r} is =
      let (a, h1) = or-IsSilent _ _ h in let (b, d) = or-IsSilent _ _ h1 in go a b d is
    where
      go :
          IsSilent (
            check_object_existence objects range_at
              (component_path i j (codes "].project"))
              project_kind
              c.project
              [])
          → IsSilent (
              check_object_existence objects range_at
                (component_path i j (codes "].slo"))
                slo_kind
                c.slo
                c.project)
          → IsSilent (
              check_objective_existence objects range_at
                (component_path i j (codes "].objective"))
                c.objective
                c.slo
                c.project)
          → ComponentRefers i j c r
          → Known r
      go a b d (inl e) =
          subst Known (sym e)
            (Silence.object-IsKnown objects range_at _ project_kind c.project [] a)
      go a b d (inr (inl e)) =
          subst Known (sym e) (Silence.object-IsKnown objects range_at _ slo_kind c.slo c.project b)
      go a b d (inr (inr e)) =
          subst Known (sym e)
            (Silence.objective-IsKnown objects range_at _ c.objective c.slo c.project d)

  given-IsSilent {ℓ} :
      {A : Type ℓ} (f : A → Diagnostics) {o : Option A} {x : A}
      → IsSilent (if_given objects range_at f o)
      → o ≡ some x
      → IsSilent (f x)
  unfolding if_given
  given-IsSilent f h e = rw e at h

  filtered-IsKnown :
      (prefix : Bytes) (kind : Kind) (xs : List InProject)
      → IsSilent (check_filtered objects range_at prefix kind xs)
      → (i : ℕ) (x : InProject) {r : Reference} → Item xs i x
      → InIts (item prefix i (codes "].project")) (item prefix i (codes "].name")) kind x r
      → Known r
  unfolding check_filtered at_item
  filtered-IsKnown prefix kind xs h i x at' is =
      in_project-IsKnown _ _ kind x (each-IsSilent _ xs h at') is

  methods-IsKnown :
      (prefix pe ne own : Bytes) (ms : List InProject)
      → IsSilent (check_methods objects range_at prefix pe ne own ms)
      → (i : ℕ) (m : InProject) {r : Reference} → Item ms i m
      → InItsOr own (item prefix i pe) (item prefix i ne) alert_method_kind m r
      → Known r
  unfolding check_methods at_item
  methods-IsKnown prefix pe ne own ms h i m at' is =
      with_fallback-IsKnown _ _ alert_method_kind m own (each-IsSilent _ ms h at') is

  slo-IsKnown :
      (own : Bytes) (s : Slo)
      → IsSilent (check_slo objects range_at own s)
      → {r : Reference} → SpecRefers own (slo s) r
      → Known r
  unfolding check_indicator check_anomaly_config check_composite at_item
  slo-IsKnown own s h (service _) =
      given_name-IsKnown _ service_kind s.service own (slo_parts own s h).0
  slo-IsKnown own s h (policy _ i p at') =
      let (_, b, _, _, _) = slo_parts own s h in
      given_name-IsKnown _ alert_policy_kind p own (each-IsSilent _ s.alert_policies b at')
  slo-IsKnown own s h (source _ m k _ is kind in') =
      let (_, _, c, _, _) = slo_parts own s h in
      with_fallback-IsKnown _ _ k (record { name = m.name; project = m.project }) own
        (rw (same_kind m.kind k kind) (given-IsSilent _ c is)) in'
  slo-IsKnown own s h (no_data_method _ ms i m _ is at' in') =
      let (_, _, _, d, _) = slo_parts own s h in
      methods-IsKnown (codes "$.spec.anomalyConfig.noData.alertMethods[") (codes "].project")
        (codes "].name") own ms (given-IsSilent _ d is) i m at' in'
  slo-IsKnown own s h (component _ i j o cs c _ at' is at'' of') =
      let (_, _, _, _, e) = slo_parts own s h in
      component-IsKnown i j c
        (each-IsSilent _ cs (given-IsSilent _ (each-IsSilent _ s.objectives e at') is) at'') of'

  spec-IsKnown :
      (own : Bytes) (spec : Spec)
      → IsSilent (check_spec objects range_at own spec)
      → {r : Reference} → SpecRefers own spec r
      → Known r
  unfolding check_spec check_alert_policy check_alert_silence check_annotation
      check_budget_adjustment check_user_group check_report if_given at_item check_role_binding
  spec-IsKnown own (slo s) h refers = slo-IsKnown own s h refers
  spec-IsKnown own (alert_policy ms) h (method _ i m _ at' in') =
      methods-IsKnown (codes "$.spec.alertMethods[") (codes "].metadata.project")
        (codes "].metadata.name") own ms h i m at' in'
  spec-IsKnown own (alert_silence s) h (silenced_policy _ _ in') =
      with_fallback-IsKnown _ _ alert_policy_kind s.alert_policy own (also-IsSilent _ _ h).0 in'
  spec-IsKnown own (alert_silence s) h (silenced_slo _) =
      exists-IsKnown _ slo_kind s.slo own (also-IsSilent _ _ h).1
  spec-IsKnown own (annotation a) h (annotated_slo _) =
      exists-IsKnown _ slo_kind a.slo own (or-IsSilent _ _ h).0
  spec-IsKnown own (annotation a) h (annotated_objective _) =
      Silence.objective-IsKnown objects range_at _ a.objective_name a.slo own (or-IsSilent _ _ h).1
  spec-IsKnown own (budget_adjustment xs) h (adjusted_slo _ i x _ at' is) =
      filtered-IsKnown (codes "$.spec.filters.slos[") slo_kind xs h i x at' is
  spec-IsKnown own (Spec.report (some f)) h (reported_project _ i p at') =
      exists-IsKnown _ project_kind p [] (each-IsSilent _ f.projects (or-IsSilent _ _ h).0 at')
  spec-IsKnown own (Spec.report (some f)) h (reported_service _ i x _ at' is) =
      filtered-IsKnown (codes "$.spec.filters.services[") service_kind f.services
        (also-IsSilent _
          (check_filtered objects range_at (codes "$.spec.filters.slos[") slo_kind f.slos)
          (or-IsSilent _ _ h).1).0
        i x at' is
  spec-IsKnown own (Spec.report (some f)) h (reported_slo _ i x _ at' is) =
      filtered-IsKnown (codes "$.spec.filters.slos[") slo_kind f.slos
        (also-IsSilent
          (check_filtered objects range_at (codes "$.spec.filters.services[") service_kind
            f.services)
          _ (or-IsSilent _ _ h).1).1
        i x at' is
  spec-IsKnown own (Spec.report none) h refers = elim refers [ ]
  spec-IsKnown own other h refers = elim refers [ ]
  spec-IsKnown own (role_binding b) h (project_role _ given) =
      subst (λ is. Known (to_role (codes "$.spec.roleRef") b.role_ref is))
        (named b.project_ref given)
        (Silence.role-IsKnown objects range_at _ b.role_ref _ (also-IsSilent _ _ h).0)
  spec-IsKnown own (role_binding b) h (organization_role _ none') =
      subst (λ is. Known (to_role (codes "$.spec.roleRef") b.role_ref is))
        (unnamed b.project_ref none')
        (Silence.role-IsKnown objects range_at _ b.role_ref _ (also-IsSilent _ _ h).0)
  spec-IsKnown own (role_binding b) h (bound_project _) =
      exists-IsKnown _ project_kind b.project_ref [] (also-IsSilent _ _ (also-IsSilent _ _ h).1).0
  spec-IsKnown own (role_binding b) h (bound_group _ g is) =
      exists-IsKnown _ user_group_kind g b.project_ref
        (given-IsSilent _ (also-IsSilent _ _ (also-IsSilent _ _ (also-IsSilent _ _ h).1).1).0 is)
  spec-IsKnown own (role_binding b) h (bound_user _ u is) =
      Silence.user-IsKnown objects range_at _ u
        (given-IsSilent _ (also-IsSilent _ _ (also-IsSilent _ _ (also-IsSilent _ _ h).1).1).1 is)
  spec-IsKnown own (user_group ids) h (member _ i id at') =
      Silence.user-IsKnown objects range_at _ id (each-IsSilent _ ids h at')

  Refers-IsKnown :
      (o : Object)
      → IsSilent (check_referenced_objects objects range_at o)
      → (r : Reference) → Refers o r
      → Known r
  unfolding check_referenced_objects check_for_project_existence
  Refers-IsKnown o h r (own_project project is given) =
      given_name-IsKnown _ project_kind project [] (given-IsSilent _ (or-IsSilent _ _ h).0 is)
  Refers-IsKnown o h r (by_spec _ is) = spec-IsKnown (get_project o) o.spec (or-IsSilent _ _ h).1 is

  IsSilent-or_not : (r : Diagnostics) → IsSilent r ⊎ (¬ IsSilent r)
  IsSilent-or_not (ok []) = inl refl
  IsSilent-or_not (ok (d ∷ ds)) = inr (λ h. cc h)
  IsSilent-or_not (err e) = inr (λ h. cc h)
  IsSilent-or_not panic = inr (λ h. cc h)
  IsSilent-or_not out_of_fuel = inr (λ h. cc h)

  -- The checks of an object's references end with diagnostics each of which is about a reference of
  -- the object: the look-ups know nothing of what it names, and the range is that of its path. They
  -- fail only as the range of the path of a reference of the object does. Either they do not end
  -- without a diagnostic, or each reference of the object names nothing, or the look-ups know what
  -- it names, or fail.
  pub check_referenced_objects-IsChecked :
      (o : Object)
      → IsSound objects range_at (Refers o) (check_referenced_objects objects range_at o)
        × ((¬ IsSilent (check_referenced_objects objects range_at o))
            ⊎ ((r : Reference) → Refers o r → IsKnown objects range_at r))
  check_referenced_objects-IsChecked o = (
    check_referenced_objects-IsSound objects range_at o,
    elim (IsSilent-or_not (check_referenced_objects objects range_at o)) [
      | inl silent ↦ inr (Refers-IsKnown o silent)
      | inr loud ↦ inl loud
    ],
  )
