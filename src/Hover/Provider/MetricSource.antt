-- ===== src/Hover/Provider/MetricSource.antt =====
-- What a hover shows of the name of a metric source.
use nobl9_language_server.Base.{ℕ, ◌≡◌, refl, ap, true, some, if_intro, [], Exec, ok, ◌>>=◌, ltb}
use nobl9_language_server.Text.{Bytes, codes, equal}
use nobl9_language_server.Text.Runes.{trim_space}
use nobl9_language_server.Manifest.{slo_kind, is_blank, same_kind, kind_number}
use nobl9_language_server.YamlAstSimple.Lines.{Line, get_key_pos}
use nobl9_language_server.Files.Simple.{Sdk, SimpleObjectNode, find_object_line}
use nobl9_language_server.ObjectRef.{Reference, get, references, find_reference}
use nobl9_language_server.Locate.{get_line_value_for_path}
use nobl9_language_server.Completion.{GetProperty}
use nobl9_language_server.Completion.References.{map_value}
use nobl9_language_server.Completion.References.MetricSource.{metric_source_of}
use nobl9_language_server.Hover.Provider.{
  HoverRepo, Printing, generate_slo_metric_source_docs, generate_property_value_doc,
  generate_reference_docs, generate_property_key_doc, hover, response_of, or_key_doc,
}

module _ (sdk : Sdk) (docs : GetProperty) (repo : HoverRepo) (printing : Printing) where
  of_known_kind :
      (node : SimpleObjectNode) (l : Line) (r : Reference) {raw : Bytes}
      → get_line_value_for_path node (codes "$.spec.indicator.metricSource.kind") ≡ ok raw
      → sdk.is_kind raw ≡ true
      → generate_slo_metric_source_docs sdk docs repo printing node l r ≡ ok []
  unfolding generate_slo_metric_source_docs
  of_known_kind node l r e known = rw (e, known) refl

  reference_docs :
      (node : SimpleObjectNode) (l : Line) {raw : Bytes}
      → node.kind ≡ slo_kind
      → get_line_value_for_path node (codes "$.spec.indicator.metricSource.kind") ≡ ok raw
      → sdk.is_kind raw ≡ true
      → generate_reference_docs sdk docs repo printing node l (metric_source_of l) ≡ ok []
  unfolding generate_reference_docs codes equal same_kind kind_number find_object_line
      get_line_value_for_path
  reference_docs node l k e known =
      rw k (of_known_kind (record node { kind = slo_kind }) l (metric_source_of l) e known)

  the_reference :
      (node : SimpleObjectNode) (l : Line)
      → node.kind ≡ slo_kind
      → l.generalized_path ≡ codes "$.spec.indicator.metricSource.name"
      → get node.kind l ≡ some (metric_source_of l)
  unfolding get references codes find_reference equal same_kind kind_number
  the_reference node l k p = rw (k, p) refl

  no_value_doc :
      (node : SimpleObjectNode) (l : Line) {value raw : Bytes}
      → map_value l ≡ ok value
      → node.kind ≡ slo_kind
      → l.generalized_path ≡ codes "$.spec.indicator.metricSource.name"
      → get_line_value_for_path node (codes "$.spec.indicator.metricSource.kind") ≡ ok raw
      → sdk.is_kind raw ≡ true
      → generate_property_value_doc sdk docs repo printing node l ≡ ok []
  unfolding generate_property_value_doc
  no_value_doc node l {value} v k p e known = rw v (
      if_intro {A = Exec Bytes} (λ x. x ≡ ok []) (is_blank (trim_space value)) (λ _. refl)
        (λ _. rw (the_reference node l k p) (reference_docs node l k e known)))

  -- Of an SLO whose metric source has a kind that `ParseKind` knows, a hover over the name of the
  -- metric source shows the documentation of the property at every character, whatever the API has.
  pub hover-known_kind :
      (c : ℕ) (node : SimpleObjectNode) (l : Line) {value raw : Bytes}
      → map_value l ≡ ok value
      → node.kind ≡ slo_kind
      → l.generalized_path ≡ codes "$.spec.indicator.metricSource.name"
      → get_line_value_for_path node (codes "$.spec.indicator.metricSource.kind") ≡ ok raw
      → sdk.is_kind raw ≡ true
      → hover sdk docs repo printing c node l ≡ (
          generate_property_key_doc sdk docs repo printing node.kind l >>= λ text.
          ok (response_of sdk docs repo printing text))
  unfolding hover
  hover-known_kind c node l v k p e known =
      ap (λ (x : Exec Bytes). x >>= λ text. ok (response_of sdk docs repo printing text))
        (if_intro {A = Exec Bytes}
          (λ x. x ≡ generate_property_key_doc sdk docs repo printing node.kind l)
          (ltb (get_key_pos l).1 c)
          (λ _.
            ap (λ (x : Exec Bytes). x >>= or_key_doc sdk docs repo printing node.kind l)
              (no_value_doc node l v k p e known))
          (λ _. refl))
