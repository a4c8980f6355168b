-- ===== src/Diagnostics/Provider.antt =====
-- internal/diagnostics/provider.go: errors turned into diagnostics, and the diagnosis of an object
-- and of a file.
pub mod Waiting
use nobl9_language_server.Base.{
  ℕ, zero, suc, ◌+◌, ◌-◌, Bool, true, false, ◌&&◌, ◌||◌, not, Option, none, some, List, [], ◌∷◌,
  ◌++◌, ltb, ◌==◌, if◌then◌else◌, Exec, ok, err, panic, out_of_fuel, ◌>>=◌, Error, length, drop,
  get_elem?,
}
use nobl9_language_server.Text.{Bytes, codes, equal, has_prefix}
use nobl9_language_server.Text.Decimal.{value_from}
use nobl9_language_server.Manifest.{Object, Kind, is_blank}
use nobl9_language_server.Messages.{
  Range, new_line_range, new_point_range, Diagnostic, error, warning, server_name, go_yaml_source,
}
use nobl9_language_server.YamlAst.{Node}
use nobl9_language_server.YamlAstSimple.Lines.{Line, mapping, is_type, get_key_pos}
use nobl9_language_server.YamlPath.Parser.{leading_digits, behind_digits}
use nobl9_language_server.YamlPath.Filter.{Ast}
use nobl9_language_server.Files.{ObjectNode, File}
use nobl9_language_server.Files.Simple.{SimpleObjectNode}
use nobl9_language_server.Diagnostics.{ObjectsProvider, Diagnostics, ◌also◌, ◌or◌}
use nobl9_language_server.Diagnostics.Existence.{server_error}
use nobl9_language_server.Diagnostics.References.{check_referenced_objects}
use nobl9_language_server.Diagnostics.Ranges.{
  Shape, find_path, get_range_from_node, get_range_for_node_path,
}

-- `govy`'s errors of one property: its name and the messages of the rules.
pub record PropertyError : Type 0 where
  pub property_name : Bytes
  pub messages : List Bytes

-- What `Validate` gives: nil, an `ObjectError`, or another error, with its text.
pub data Validation : Type 0 where
  valid : Validation
  object_error : List PropertyError → Bytes → Validation
  other_error : Bytes → Validation

-- A `yaml.Error` of goccy/go-yaml: its token, its message, and whether it is a `SyntaxError`.
pub record YamlError : Type 0 where
  pub line : ℕ
  pub column : ℕ
  pub value_length : ℕ
  pub message : Bytes
  pub is_syntax : Bool

-- `checkDeprecated`, at the line with the index `i`, of a document that begins at `offset`.
unfoldable pub deprecated_line : ℕ → Bytes → ℕ → Line → List Diagnostic
unfolding is_type equal get_key_pos new_line_range codes
deprecated_line offset path i l =
    if is_type l mapping && equal l.generalized_path path
    then record {
      range = new_line_range (offset + i + 1) (get_key_pos l).0 (get_key_pos l).1;
      severity = warning;
      source = server_name;
      message = codes "property is deprecated";
      related = none;
    }
      ∷ []
    else []

unfoldable pub deprecated_lines : ℕ → Bytes → ℕ → List Line → List Diagnostic
unfolding deprecated_line
deprecated_lines offset path i [] = []
deprecated_lines offset path i (l ∷ ls) =
    deprecated_line offset path i l ++ deprecated_lines offset path (suc i) ls

unfoldable pub deprecated_paths : List Bytes → ℕ → List Line → List Diagnostic
unfolding deprecated_lines
deprecated_paths [] offset ls = []
deprecated_paths (p ∷ ps) offset ls =
    deprecated_lines offset p 0 ls ++ deprecated_paths ps offset ls

unfoldable pub check_deprecated : (Kind → List Bytes) → SimpleObjectNode → List Diagnostic
unfolding deprecated_paths
check_deprecated get_deprecated_paths s =
    deprecated_paths (get_deprecated_paths s.kind) s.doc.offset s.doc.lines

-- `strconv.Atoi` of digits: a number out of range becomes the largest one.
unfoldable pub atoi : List ℕ → ℕ
unfolding value_from
atoi ds = if ltb 9223372036854775807 (value_from 0 ds) then 9223372036854775807 else value_from 0 ds

-- The pattern of `duplicateYAMLKeyRegexp` at the beginning of a text.
unfoldable pub end_of_pair : ℕ → List ℕ → Bytes → Option (ℕ × ℕ)
unfolding atoi has_prefix
end_of_pair line [] rest = none
end_of_pair line (d ∷ ds) rest =
    if has_prefix (b']' ∷ []) rest then some (line, atoi (d ∷ ds)) else none

unfoldable pub pair_from : List ℕ → Bytes → Option (ℕ × ℕ)
unfolding leading_digits behind_digits end_of_pair atoi
pair_from [] rest = none
pair_from (d ∷ ds) [] = none
pair_from (d ∷ ds) (c ∷ rest) =
    if c == b':'
    then end_of_pair (atoi (d ∷ ds)) (leading_digits rest) (behind_digits rest)
    else none

unfoldable pub pair_here : Bytes → Option (ℕ × ℕ)
unfolding codes has_prefix pair_from leading_digits behind_digits
pair_here s =
    if has_prefix (codes "already defined at [") s
    then pair_from (leading_digits (drop 20 s)) (behind_digits (drop 20 s))
    else none

unfoldable pub find_duplicate : Bytes → Option (ℕ × ℕ)
unfolding pair_here
find_duplicate [] = none
find_duplicate (c ∷ cs) = elim (pair_here (c ∷ cs)) [ some p ↦ some p | none ↦ find_duplicate cs ]

unfoldable pub yaml_error_to_diagnostic : YamlError → Diagnostic
unfolding find_duplicate new_line_range new_point_range
yaml_error_to_diagnostic e = record {
  range = new_line_range e.line (e.column - 1) (e.column - 1 + e.value_length);
  severity = error;
  source = go_yaml_source;
  message = e.message;
  related =
      if e.is_syntax
      then (elim (find_duplicate e.message) [
        | none ↦ none
        | some (line, col) ↦ some (new_point_range line col)
      ])
      else none;
}

-- What the provider is given: the look-ups, the deprecated paths, the validation of the SDK, how an
-- error reads, and the `yaml.Error` in it if there is one.
pub record Provider : Type 0 where
  pub objects : ObjectsProvider
  pub get_deprecated_paths : Kind → List Bytes
  pub validate : Object → Validation
  pub error_text : Error → Bytes
  pub yaml_error : Error → Option YamlError

module _ (p : Provider) where
  unfoldable pub ast_error_to_diagnostics : Error → ℕ → List Diagnostic
  unfolding yaml_error_to_diagnostic new_point_range
  ast_error_to_diagnostics e line = elim (p.yaml_error e) [
    | some y ↦ yaml_error_to_diagnostic y ∷ []
    | none ↦ server_error (new_point_range line 0) (p.error_text e) ∷ []
  ]

  module _ (ast : Ast) (shape : ast.Node → Shape) where
    -- One diagnostic for each rule; the property is named where it was not found itself.
    unfoldable pub rule_diagnostics : Range → Bool → Bytes → List Bytes → List Diagnostic
    unfolding is_blank codes
    rule_diagnostics range first name [] = []
    rule_diagnostics range first name (m ∷ ms) =
        server_error range (if first || is_blank name then m else name ++ (codes ": " ++ m))
        ∷ rule_diagnostics range first name ms

    abbrev pub property_path : Bytes → Bytes
    property_path name = if is_blank name then b'$' ∷ [] else b'$' ∷ b'.' ∷ name

    -- A path that is refused, by the parser or by `FilterNode`, is passed over.
    unfoldable pub property_diagnostics : PropertyError → Exec (ast.Node × Bool) → Diagnostics
    unfolding rule_diagnostics get_range_from_node
    property_diagnostics e (ok (n, first)) =
        ok (rule_diagnostics (get_range_from_node ast shape n) first e.property_name e.messages)
    property_diagnostics e (err x) = ok []
    property_diagnostics e panic = panic
    property_diagnostics e out_of_fuel = out_of_fuel

    unfoldable pub object_validation_error_to_diagnostics :
        List PropertyError → Option ast.Node → Diagnostics
    unfolding property_diagnostics find_path is_blank ◌also◌
    object_validation_error_to_diagnostics [] n = ok []
    object_validation_error_to_diagnostics (e ∷ es) n =
        property_diagnostics e (find_path ast shape (property_path e.property_name) n)
        also object_validation_error_to_diagnostics es n

    unfoldable pub validate_object : Validation → Node ast.Node → Diagnostics
    unfolding ◌or◌ object_validation_error_to_diagnostics new_line_range
    validate_object valid node = ok []
    validate_object (object_error es text) node =
        object_validation_error_to_diagnostics es node.node
        or ok (server_error (new_line_range node.start_line 0 0) text ∷ [])
    validate_object (other_error text) node =
        ok (server_error (new_line_range node.start_line 0 0) text ∷ [])

    -- The references are followed only where the object is valid.
    unfoldable pub diagnose_valid : List Diagnostic → Node ast.Node → Object → Diagnostics
    unfolding check_referenced_objects get_range_for_node_path
    diagnose_valid [] node o =
        check_referenced_objects p.objects
          (get_range_for_node_path ast shape node.node node.start_line) o
    diagnose_valid (d ∷ ds) node o = ok []

    unfoldable pub diagnose_object : Node ast.Node → Object → SimpleObjectNode → Diagnostics
    unfolding validate_object diagnose_valid check_deprecated
    diagnose_object node o simple = do
      invalid ← validate_object (p.validate o) node
      references ← diagnose_valid invalid node o
      ok (check_deprecated p.get_deprecated_paths simple ++ (invalid ++ references))

    -- The body of the goroutine of one object. `Validate` of a nil object panics, as does an index
    -- behind the end of the simple nodes.
    unfoldable pub diagnose_decoded :
        Option Object → Node ast.Node → Option SimpleObjectNode → Diagnostics
    unfolding diagnose_object
    diagnose_decoded (some o) node (some simple) = diagnose_object node o simple
    diagnose_decoded _ node _ = panic

    unfoldable pub diagnose_node : List SimpleObjectNode → ℕ → ObjectNode ast.Node → Diagnostics
    unfolding ast_error_to_diagnostics diagnose_decoded
    diagnose_node simple i o = elim o.error [
      | some e ↦ ok (ast_error_to_diagnostics e o.node.start_line)
      | none ↦ diagnose_decoded o.object o.node (get_elem? simple i)
    ]

    -- The goroutines run by themselves, and a panic in one is recovered there: it sends nothing.
    unfoldable pub diagnose_nodes :
        List SimpleObjectNode → ℕ → List (ObjectNode ast.Node) → List Diagnostics
    unfolding diagnose_node
    diagnose_nodes simple i [] = []
    diagnose_nodes simple i (o ∷ os) = diagnose_node simple i o ∷ diagnose_nodes simple (suc i) os

    -- The receiving loop: one message for each object. It waits forever for one that is never sent.
    unfoldable pub receive : List Diagnostics → Diagnostics
    receive [] = ok []
    receive (ok ds ∷ rest) = receive rest >>= λ more. ok (ds ++ more)
    receive (_ ∷ rest) = out_of_fuel

    -- `DiagnoseFile`, where the goroutines end in the order of the objects.
    unfoldable pub diagnose_file : File ast.Node → Diagnostics
    unfolding ast_error_to_diagnostics diagnose_nodes receive
    diagnose_file f = elim f.error [
      | some e ↦ ok (ast_error_to_diagnostics e 0)
      | none ↦ receive (diagnose_nodes f.simple_ast 0 f.objects)
    ]
