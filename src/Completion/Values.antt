-- ===== src/Completion/Values.antt =====
-- internal/completion/values_completion.go.
use nobl9_language_server.Base.{Option, none, some, List, [], map, if◌then◌else◌, Exec, ok, ◌>>=◌}
use nobl9_language_server.Text.{Bytes, codes, equal}
use nobl9_language_server.YamlAstSimple.Lines.{Line}
use nobl9_language_server.Files.Simple.{SimpleObjectNode}
use nobl9_language_server.SdkDocs.{PropertyDoc}
use nobl9_language_server.Completion.{
  Item, value_completion, no_format, Provider, values_completion, GetProperty,
}

-- `manifest.KindNames` and `manifest.VersionNames` of nobl9-go.
pub record Names : Type 0 where
  pub kind_names : List Bytes
  pub version_names : List Bytes

abbrev pub values_of : Option PropertyDoc → List Bytes
values_of none = []
values_of (some p) = p.values

abbrev pub value_item : Bytes → Item
value_item value = record {
  label = value;
  kind = value_completion;
  insert_text = [];
  format = no_format;
}

module _ (names : Names) (docs : GetProperty) where
  -- The switch on the path.
  unfoldable pub proposed_values : SimpleObjectNode → Bytes → Exec (List Bytes)
  unfolding codes equal
  proposed_values node path =
      if equal path (codes "$.kind")
      then ok names.kind_names
      else if equal path (codes "$.apiVersion")
      then ok names.version_names
      else (docs node.kind path >>= λ prop. ok (values_of prop))

  unfoldable pub complete_values : SimpleObjectNode → Line → Exec (List Item)
  unfolding proposed_values
  complete_values node line =
      proposed_values node line.generalized_path >>= λ values. ok (map value_item values)

  abbrev pub values_provider : Provider
  values_provider = record {
    provider_type = values_completion;
    complete = λ params file node line. complete_values node line;
  }
