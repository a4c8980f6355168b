-- ===== src/Hover/Provider/Scoping.antt =====
-- Which look-ups a hover makes.
use nobl9_language_server.Base.{
  ℕ, ◌≡◌, refl, ap, ◌∙◌, false, ◌&&◌, Option, none, some, [], ◌∷◌, ltb, Exec, ok, ◌>>=◌,
  if◌then◌else◌, bind_same, if_same,
}
use nobl9_language_server.Text.{Bytes, codes, equal}
use nobl9_language_server.Text.Runes.{trim_space}
use nobl9_language_server.Manifest.{
  Kind, Object, slo_kind, role_binding_kind, user_group_kind, same_kind, is_blank,
}
use nobl9_language_server.YamlAstSimple.Lines.{Line, get_key_pos}
use nobl9_language_server.Files.Simple.{Sdk, SimpleObjectNode}
use nobl9_language_server.ObjectRef.{Reference, get, is_project_scoped}
use nobl9_language_server.Locate.{get_line_value_for_path, get_project_name_from_ref}
use nobl9_language_server.Completion.{GetProperty}
use nobl9_language_server.Completion.References.{User, map_value, or_agent}
use nobl9_language_server.Hover.Provider.{
  HoverRepo, Printing, ◌or_blank◌, docs_of_object, docs_of_user, generate_object_docs,
  generate_slo_metric_source_docs, generate_user_docs, generate_reference_docs,
  generate_property_value_doc, generate_property_key_doc, or_key_doc, response_of, hover,
}

-- Two APIs that may differ only where a project-scoped object is asked for without a project.
pub record Agree (a b : HoverRepo) : Type 0 where
  pub object :
      (k : Kind) (name project : Bytes)
      → (is_blank project && is_project_scoped k) ≡ false
      → a.get_object k name project ≡ b.get_object k name project
  pub user : (id : Bytes) → a.get_user id ≡ b.get_user id

module _ (sdk : Sdk) (docs : GetProperty) (printing : Printing) (a b : HoverRepo)
    (agree : Agree a b) where
  same_object_docs :
      (node : SimpleObjectNode) (l : Line) (r : Reference)
      → generate_object_docs sdk docs a printing node l r
        ≡ generate_object_docs sdk docs b printing node l r
  unfolding generate_object_docs
  same_object_docs node l r = bind_same (get_project_name_from_ref node r) _ _ λ project.
      if_same (is_blank project && is_project_scoped r.kind) (λ _. refl)
        λ e. bind_same (map_value l) _ _ λ name.
          ap (λ (x : Exec (Option Object)). x or_blank docs_of_object sdk docs a printing)
            (agree.object r.kind name project e)

  same_user_docs :
      (l : Line)
      → generate_user_docs sdk docs a printing l ≡ generate_user_docs sdk docs b printing l
  unfolding generate_user_docs
  same_user_docs l =
      bind_same (map_value l) _ _
        λ id. ap (λ (x : Exec (Option User)). x or_blank docs_of_user) (agree.user id)

  same_metric_source :
      (node : SimpleObjectNode) (l : Line) (r : Reference)
      → generate_slo_metric_source_docs sdk docs a printing node l r
        ≡ generate_slo_metric_source_docs sdk docs b printing node l r
  unfolding generate_slo_metric_source_docs
  same_metric_source node l r =
      bind_same (get_line_value_for_path node (codes "$.spec.indicator.metricSource.kind")) _ _
        λ raw.
          if_same (sdk.is_kind raw) (λ _. refl)
            λ _. same_object_docs node l (record r { kind = or_agent (sdk.parse_kind raw) })

  same_reference_docs :
      (node : SimpleObjectNode) (l : Line) (r : Reference)
      → generate_reference_docs sdk docs a printing node l r
        ≡ generate_reference_docs sdk docs b printing node l r
  unfolding generate_reference_docs
  same_reference_docs node l r =
      if_same
        (same_kind node.kind slo_kind && equal r.path (codes "$.spec.indicator.metricSource.name"))
        (λ _. same_metric_source node l r)
        λ _.
          if_same (same_kind node.kind role_binding_kind && equal r.path (codes "$.spec.user"))
            (λ _. same_user_docs l)
            λ _.
              if_same
                (same_kind node.kind user_group_kind && equal r.path (codes "$.spec.members[*].id"))
                (λ _. same_user_docs l) (λ _. same_object_docs node l r)

  same_value_doc :
      (node : SimpleObjectNode) (l : Line)
      → generate_property_value_doc sdk docs a printing node l
        ≡ generate_property_value_doc sdk docs b printing node l
  unfolding generate_property_value_doc
  same_value_doc node l =
      bind_same (map_value l) _ _ λ value.
        if_same (is_blank (trim_space value)) (λ _. refl) λ _. of_reference (get node.kind l)
    where
      of_reference :
          (o : Option Reference)
          → (elim o [
            | none ↦ ok []
            | some r ↦ generate_reference_docs sdk docs a printing node l r
          ])
            ≡ (elim o [
              | none ↦ ok []
              | some r ↦ generate_reference_docs sdk docs b printing node l r
            ])
      of_reference none = refl
      of_reference (some r) = same_reference_docs node l r

  key_or_value :
      (c : ℕ) (node : SimpleObjectNode) (l : Line)
      → (if ltb (get_key_pos l).1 c
          then generate_property_value_doc sdk docs a printing node l
            >>= or_key_doc sdk docs a printing node.kind l
          else generate_property_key_doc sdk docs a printing node.kind l)
        ≡ (if ltb (get_key_pos l).1 c
            then generate_property_value_doc sdk docs b printing node l
              >>= or_key_doc sdk docs b printing node.kind l
            else generate_property_key_doc sdk docs b printing node.kind l)
  unfolding generate_property_key_doc
  key_or_value c node l =
      if_same (ltb (get_key_pos l).1 c)
        (λ _.
          ap (λ (x : Exec Bytes). x >>= or_key_doc sdk docs a printing node.kind l)
            (same_value_doc node l)
          ∙ bind_same (generate_property_value_doc sdk docs b printing node l) _ _ same_fallback)
        (λ _. refl)
    where
      same_fallback :
          (t : Bytes)
          → or_key_doc sdk docs a printing node.kind l t
            ≡ or_key_doc sdk docs b printing node.kind l t
      same_fallback [] = refl
      same_fallback (c ∷ cs) = refl

  -- A hover is the same for two APIs that agree on users, and on objects with a project or of a kind
  -- that needs none: a project-scoped object is never asked for without a project.
  pub hover-agree :
      (c : ℕ) (node : SimpleObjectNode) (l : Line)
      → hover sdk docs a printing c node l ≡ hover sdk docs b printing c node l
  unfolding hover
  hover-agree c node l =
      ap (λ (x : Exec Bytes). x >>= λ text. ok (response_of sdk docs a printing text))
        (key_or_value c node l)
      ∙ bind_same
          (if ltb (get_key_pos l).1 c
            then generate_property_value_doc sdk docs b printing node l
              >>= or_key_doc sdk docs b printing node.kind l
            else generate_property_key_doc sdk docs b printing node.kind l)
          _ _ same_response
    where
      same_response :
          (t : Bytes)
          → ◌≡◌ {A = Exec (Option Bytes)}
              (ok (response_of sdk docs a printing t))
              (ok (response_of sdk docs b printing t))
      same_response [] = refl
      same_response (c ∷ cs) = refl
