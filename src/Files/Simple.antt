-- ===== src/Files/Simple.antt =====
-- internal/files/simple_object.go.
pub mod Splitting
pub mod Prefix
pub mod Elements
pub mod Documents
pub mod Nodes
use nobl9_language_server.Base.{
  ℕ, zero, suc, ◌+◌, ◌-◌, Bool, true, false, ◌&&◌, ◌||◌, not, Option, none, some, List, [], ◌∷◌,
  ◌++◌, ltb, ◌==◌, if◌then◌else◌, Exec, ok, err, panic, out_of_fuel, ◌>>=◌, missing_bracket, take,
  drop, length,
}
use nobl9_language_server.Text.{Bytes, codes, equal, has_prefix, index}
use mathlib.Core.Option
use nobl9_language_server.Text.Decimal.{itoa}
use nobl9_language_server.Manifest.{Kind, no_kind}
use nobl9_language_server.YamlAstSimple.{parse_file}
use nobl9_language_server.YamlAstSimple.Lines.{
  Line, Document, list, is_type, get_map_value, find_by_path,
}

-- `manifest.ParseKind` and `manifest.ParseVersion` of nobl9-go: the value that they return, and
-- whether the error beside it is nil; and `manifest.VersionV1alpha`.
pub record Sdk : Type 0 where
  pub parse_kind : Bytes → Kind
  pub is_kind : Bytes → Bool
  pub parse_version : Bytes → Bytes
  pub is_version : Bytes → Bool
  pub version_v1alpha : Bytes

-- `list_element` is the index of a node that is an element of a list.
pub record SimpleObjectNode : Type 0 where
  pub kind : Kind
  pub version : Bytes
  pub doc : Document
  pub list_element : Option ℕ

-- The path with the index of the element behind the root.
unfoldable pub element_path : Option ℕ → Bytes → Bytes
unfolding codes has_prefix
element_path (some i) (c ∷ path) =
    if has_prefix (codes "$[") (c ∷ path) then c ∷ path else codes "$[" ++ (itoa i ++ b']' ∷ path)
element_path _ path = path

unfoldable pub find_object_line : SimpleObjectNode → Bytes → Option Line
unfolding element_path find_by_path
find_object_line s path = find_by_path s.doc.lines (element_path s.list_element path)

unfoldable pub has_list_line : List Line → Bool
unfolding codes is_type has_prefix
has_list_line [] = false
has_list_line (l ∷ ls) = is_type l list && has_prefix (codes "$[") l.path || has_list_line ls

unfoldable pub doc_is_list : Document → Bool
unfolding has_list_line
doc_is_list doc = has_list_line doc.lines

-- What stands behind the first dot of a path.
unfoldable pub behind_dot : Bytes → Option Bytes
unfolding index
behind_dot path = elim (index b'.' path) [ none ↦ none | some i ↦ some (drop (i + 1) path) ]

-- The prefix of a line, `line.Path[2:closingBracketIdx]`.
unfoldable pub list_prefix : Bytes → Exec Bytes
unfolding index
list_prefix path = elim (index b']' path) [
  | none ↦ err missing_bracket
  | some k ↦ if ltb k 2 then panic else ok (take (k - 2) (drop 2 path))
]

abbrev pub is_blank : Bytes → Bool
is_blank [] = true
is_blank (c ∷ cs) = false

-- The document that lines are appended to.
abbrev pub append_line : Document → Line → Document
append_line doc l = record { offset = doc.offset; lines = doc.lines ++ l ∷ [] }

-- The document behind it, which begins with the line.
abbrev pub next_document : Document → Line → Document
next_document doc l = record { offset = doc.offset + length doc.lines; lines = l ∷ [] }

-- What the loop does at a line that is long enough, on the prefix of the line: the line is appended
-- to the current document, or begins the next one.
unfoldable pub split_at_prefix :
    (Bytes → Document → Exec (List Document))
    → Bytes
    → Document
    → Line
    → Exec Bytes
    → Exec (List Document)
unfolding equal
split_at_prefix go prefix current l (ok new_prefix) =
    if is_blank prefix || equal prefix new_prefix
    then go new_prefix (append_line current l)
    else go new_prefix (next_document current l) >>= λ docs. ok (current ∷ docs)
split_at_prefix go prefix current l (err e) = err e
split_at_prefix go prefix current l panic = panic
split_at_prefix go prefix current l out_of_fuel = out_of_fuel

-- The loop of `splitListDocument`, on the prefix and the current document: the finished documents
-- are put in front of those that the rest of the lines gives.
unfoldable pub split_lines : Bytes → Document → List Line → Exec (List Document)
unfolding list_prefix split_at_prefix
split_lines prefix current [] = ok (current ∷ [])
split_lines prefix current (l ∷ ls) =
    if ltb (length l.path) 4
    then split_lines prefix (append_line current l) ls
    else split_at_prefix (λ q d. split_lines q d ls) prefix current l (list_prefix l.path)

unfoldable pub split_list_document : Document → Exec (List Document)
unfolding split_lines
split_list_document doc = split_lines [] (record { offset = doc.offset; lines = [] }) doc.lines

module _ (sdk : Sdk) where
  -- The fields that the line with this key sets; `none` is a panic.
  unfoldable pub read_field : SimpleObjectNode → Bytes → Option Bytes → Option SimpleObjectNode
  unfolding codes equal
  read_field node key value =
      if equal key (codes "kind")
      then Option.map (λ v. record node { kind = sdk.parse_kind v }) value
      else if equal key (codes "apiVersion")
      then Option.map (λ v. record node { version = sdk.parse_version v }) value
      else some node

  -- One round of the loop of `parseSimpleObjectNode`.
  unfoldable pub read_line : SimpleObjectNode → Line → Option SimpleObjectNode
  unfolding behind_dot read_field get_map_value
  read_line node l = elim (behind_dot l.path) [
    | none ↦ some node
    | some key ↦ read_field node key (get_map_value l)
  ]

  unfoldable pub read_lines : SimpleObjectNode → List Line → Option SimpleObjectNode
  unfolding read_line
  read_lines node [] = some node
  read_lines node (l ∷ ls) = elim (read_line node l) [
    | none ↦ none
    | some node' ↦ read_lines node' ls
  ]

  unfoldable pub parse_simple_object_node : Option ℕ → Document → Exec SimpleObjectNode
  unfolding read_lines
  parse_simple_object_node element doc =
      elim (read_lines (record { kind = no_kind; version = []; doc = doc; list_element = element })
        doc.lines) [ none ↦ panic | some node ↦ ok node ]

  unfoldable pub parse_elements : ℕ → List Document → Exec (List SimpleObjectNode)
  unfolding parse_simple_object_node
  parse_elements i [] = ok []
  parse_elements i (d ∷ ds) = do
    node ← parse_simple_object_node (some i) d
    nodes ← parse_elements (suc i) ds
    ok (node ∷ nodes)

  -- One round of the loop of `ParseSimpleObjectFile`.
  unfoldable pub parse_doc : Document → Exec (List SimpleObjectNode)
  unfolding doc_is_list split_list_document parse_elements parse_simple_object_node
  parse_doc doc =
      if length doc.lines == 0
      then ok []
      else if doc_is_list doc
      then split_list_document doc >>= parse_elements 0
      else (parse_simple_object_node none doc >>= λ node. ok (node ∷ []))

  unfoldable pub parse_all : List Document → Exec (List SimpleObjectNode)
  unfolding parse_doc
  parse_all [] = ok []
  parse_all (d ∷ ds) = do nodes ← parse_doc d; more ← parse_all ds; ok (nodes ++ more)

  unfoldable pub parse_simple_object_file : Bytes → Exec (List SimpleObjectNode)
  unfolding parse_file parse_all
  parse_simple_object_file content = parse_file content >>= parse_all
