-- ===== src/Completion/References/MetricSource.antt =====
-- What is completed as the name of a metric source.
use nobl9_language_server.Base.{
  ◌≡◌, refl, ap, ◌∙◌, true, Option, none, some, [], ◌∷◌, ok, List, if_intro, ◌>>=◌,
}
use nobl9_language_server.Text.{Bytes, codes, equal}
use nobl9_language_server.Manifest.{slo_kind, no_kind, same_kind, kind_number}
use nobl9_language_server.YamlAstSimple.Lines.{Line}
use nobl9_language_server.Files.Simple.{Sdk, SimpleObjectNode, find_object_line}
use nobl9_language_server.ObjectRef.{Reference, get, find_reference, references, with_line}
use nobl9_language_server.Locate.{get_line_value_for_path}
use nobl9_language_server.Completion.{Item}
use nobl9_language_server.Completion.References.{
  ObjectsRepo, complete_slo_metric_source_name, complete_references, after_trigger,
}

-- The reference that `Get` gives for the line of the name.
abbrev pub metric_source_of : Line → Reference
metric_source_of l = with_line l (record {
  path = codes "$.spec.indicator.metricSource.name";
  kind = no_kind;
  project_path = codes "$.spec.indicator.metricSource.project";
  slo_path = [];
  applies_to = slo_kind ∷ [];
})

after_trigger-nil :
    (sdk : Sdk) (repo : ObjectsRepo) (trigger : Option Bytes)
    → after_trigger sdk repo trigger [] ≡ []
unfolding after_trigger
after_trigger-nil sdk repo none = refl
after_trigger-nil sdk repo (some c) =
    if_intro {A = List Item} (λ items. items ≡ []) (equal c (b':' ∷ [])) (λ _. refl) (λ _. refl)

module _ (sdk : Sdk) (repo : ObjectsRepo) where
  of_known_kind :
      (node : SimpleObjectNode) (r : Reference) {raw : Bytes}
      → get_line_value_for_path node (codes "$.spec.indicator.metricSource.kind") ≡ ok raw
      → sdk.is_kind raw ≡ true
      → complete_slo_metric_source_name sdk repo node r ≡ ok []
  unfolding complete_slo_metric_source_name
  of_known_kind node r e known = rw (e, known) refl

  -- Of an SLO whose metric source has a kind that `ParseKind` knows, no name is completed for the
  -- metric source, whatever the API has: the code returns where the error is nil.
  pub complete_references-known_kind :
      (trigger : Option Bytes) (node : SimpleObjectNode) (l : Line) {raw : Bytes}
      → node.kind ≡ slo_kind
      → l.generalized_path ≡ codes "$.spec.indicator.metricSource.name"
      → get_line_value_for_path node (codes "$.spec.indicator.metricSource.kind") ≡ ok raw
      → sdk.is_kind raw ≡ true
      → complete_references sdk repo trigger node l ≡ ok []
  unfolding complete_references get references codes find_reference equal same_kind kind_number
      find_object_line get_line_value_for_path
  complete_references-known_kind trigger node l k p e known =
      rw (k, p)
        (ap (λ items. items >>= λ found. ok (after_trigger sdk repo trigger found))
            (of_known_kind (record node { kind = slo_kind }) (metric_source_of l) e known)
          ∙ ap ok (after_trigger-nil sdk repo trigger))
