-- ===== src/Completion/Keys.antt =====
-- internal/completion/keys_completion.go.
pub mod Proposals
mod Tests
use nobl9_language_server.Base.{
  ℕ, ◌+◌, ◌-◌, Bool, true, false, ◌&&◌, ◌||◌, not, Option, none, some, List, [], ◌∷◌, ◌++◌, length,
  take, drop, if◌then◌else◌, Exec, ok, ◌>>=◌,
}
use nobl9_language_server.Text.{Bytes, codes, equal, split, join, last_index, has_suffix, spaces}
use nobl9_language_server.Manifest.{Kind, no_kind, same_kind}
use nobl9_language_server.YamlAstSimple.Lines.{Line, is_type, mapping}
use nobl9_language_server.Files.Simple.{SimpleObjectNode}
use nobl9_language_server.SdkDocs.{PropertyDoc}
use nobl9_language_server.Completion.{
  Item, property_completion, plain_text, Provider, keys_completion, GetProperty,
}

-- `slices.Contains`, or a map to Booleans that are all true.
unfoldable pub contains_path : List Bytes → Bytes → Bool
unfolding equal
contains_path [] path = false
contains_path (p ∷ ps) path = equal p path || contains_path ps path

unfoldable pub excluded_completion_paths : List Bytes
unfolding codes
excluded_completion_paths =
    codes "$.status" ∷ codes "$.organization" ∷ codes "$.oktaClientID" ∷ codes "$.manifestSrc" ∷ []

unfoldable pub is_excluded : Bytes → Bool
unfolding contains_path excluded_completion_paths
is_excluded path = contains_path excluded_completion_paths path

-- `split[:len(split)-1]`.
unfoldable pub without_last : List Bytes → List Bytes
without_last [] = []
without_last (p ∷ []) = []
without_last (p ∷ q ∷ ps) = p ∷ without_last (q ∷ ps)

-- `strings.Join(split[:len(split)-1], ".")`, if there is more than one part.
abbrev pub join_parents : Bytes → List Bytes → Bytes
join_parents path (p ∷ q ∷ ps) = join (b'.' ∷ []) (without_last (p ∷ q ∷ ps))
join_parents path _ = path

-- The path whose children are proposed.
unfoldable pub completed_path : Line → Bytes
unfolding is_type split join without_last
completed_path line =
    if is_type line mapping
    then join_parents line.generalized_path (split b'.' line.generalized_path)
    else line.generalized_path

unfoldable pub base_paths : List Bytes
unfolding codes
base_paths = codes "$.apiVersion" ∷ codes "$.kind" ∷ codes "$.metadata" ∷ codes "$.spec" ∷ []

abbrev pub children_of : Option PropertyDoc → List Bytes
children_of none = []
children_of (some p) = p.children_paths

unfoldable pub last_part : Bytes → Bytes
unfolding last_index
last_part path = elim (last_index b'.' path) [ none ↦ path | some i ↦ drop (i + 1) path ]

abbrev pub has_no_children : Option PropertyDoc → Bool
has_no_children none = true
has_no_children (some p) = elim p.children_paths [ [] ↦ true | c ∷ cs ↦ false ]

abbrev pub has_colon : Line → Bool
has_colon line = elim line.colon [ none ↦ false | some c ↦ true ]

-- `isRootSpecOrMetadata`.
unfoldable pub is_root_spec_or_metadata : Bytes → Bytes → Bool
unfolding codes equal
is_root_spec_or_metadata path label =
    equal path (b'$' ∷ []) && (equal label (codes "spec") || equal label (codes "metadata"))

unfoldable pub is_array : Bytes → Bool
unfolding codes has_suffix
is_array label = has_suffix (codes "[*]") label

-- The switch, on what stands behind the path and the label.
unfoldable pub insert_text_for : Line → Bytes → Bytes → Option PropertyDoc → Bytes
unfolding codes spaces is_root_spec_or_metadata is_array
insert_text_for line path label prop =
    if has_colon line
    then label
    else if has_no_children prop && not (is_root_spec_or_metadata path label)
    then label ++ codes ": "
    else if is_array label
    then take (length label - 3) label ++ (codes ":\n" ++ (spaces line.indent ++ codes "- "))
    else label ++ (codes ":\n" ++ spaces (line.indent + 2))

unfoldable pub property_item : Line → Bytes → Bytes → Option PropertyDoc → Item
unfolding insert_text_for
property_item line path label prop = record {
  label = label;
  kind = property_completion;
  insert_text = insert_text_for line path label prop;
  format = plain_text;
}

module _ (docs : GetProperty) where
  -- What is proposed under a path.
  unfoldable pub proposed_paths : Kind → Bytes → Exec (List Bytes)
  unfolding same_kind base_paths
  proposed_paths kind path =
      if same_kind kind no_kind
      then ok base_paths
      else (docs kind path >>= λ prop. ok (children_of prop))

  -- The loop over the proposed paths.
  unfoldable pub complete_paths : Kind → Line → Bytes → List Bytes → Exec (List Item)
  unfolding is_excluded last_part property_item
  complete_paths kind line path [] = ok []
  complete_paths kind line path (proposed ∷ rest) =
      let later = complete_paths kind line path rest in
      let label = last_part proposed in
      if is_excluded proposed then later else do
        prop ← docs kind (path ++ b'.' ∷ label)
        items ← later
        ok (property_item line path label prop ∷ items)

  unfoldable pub complete_keys : Kind → Line → Exec (List Item)
  unfolding completed_path proposed_paths complete_paths
  complete_keys kind line =
      let path = completed_path line in proposed_paths kind path >>= complete_paths kind line path

  abbrev pub keys_provider : Provider
  keys_provider = record {
    provider_type = keys_completion;
    complete = λ params file node line. complete_keys node.kind line;
  }
