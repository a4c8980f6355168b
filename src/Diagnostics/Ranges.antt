-- ===== src/Diagnostics/Ranges.antt =====
-- internal/diagnostics/provider.go: the range of a node, and of a path.
use nobl9_language_server.Base.{
  ℕ, ◌+◌, ◌-◌, Bool, Option, none, some, if◌then◌else◌, Exec, ok, err, panic, out_of_fuel, ◌>>=◌,
}
use nobl9_language_server.Text.{Bytes}
use nobl9_language_server.Messages.{Range, new_line_range, new_point_range}
use nobl9_language_server.YamlPath.{PathBuilder}
use nobl9_language_server.YamlPath.Parser.{from_string}
use nobl9_language_server.YamlPath.Filter.{Ast, filter_node}

-- `token.Position`; lines and columns count from one.
pub record Token : Type 0 where
  pub line : ℕ
  pub column : ℕ
  pub indent_num : ℕ

-- What `getRangeFromNode` reads of a node. A `MappingValueNode` has the tokens of its key and of its
-- value, the column of its start and the length of its text, and is `folded` where the value is a
-- mapping or null. A `StringNode` has the length of its value.
pub data Shape : Type 0 where
  mapping_value : Bool → Token → ℕ → Token → ℕ → Shape
  string_value : Token → ℕ → Shape
  other_node : Token → Shape

unfoldable pub get_range_from_shape : Shape → Range
unfolding new_line_range
get_range_from_shape (mapping_value folded key start value len) =
    if folded
    then new_line_range key.line (key.column - 1) (start - 1)
    else new_line_range value.line (value.column - 1) len
get_range_from_shape (string_value token len) =
    new_line_range token.line (token.column - 1) (token.column + len - 1)
get_range_from_shape (other_node token) = new_line_range token.line token.indent_num token.column

module _ (ast : Ast) (shape : ast.Node → Shape) where
  unfoldable pub get_range_from_node : ast.Node → Range
  unfolding get_range_from_shape
  get_range_from_node n = get_range_from_shape (shape n)

  -- `FilterNode` of a path that was built; a path of no nodes is nil.
  unfoldable pub filter_built : PathBuilder → Option ast.Node → Exec (ast.Node × Bool)
  unfolding filter_node
  filter_built none n = panic
  filter_built (some steps) n = filter_node ast steps n

  unfoldable pub find_path : Bytes → Option ast.Node → Exec (ast.Node × Bool)
  unfolding from_string filter_built
  find_path path n = from_string path >>= λ b. filter_built b n

  -- `findNodeForPath`: every error is a nil node.
  unfoldable pub node_or_nil : Exec (ast.Node × Bool) → Exec (Option ast.Node)
  node_or_nil (ok (n, first)) = ok (some n)
  node_or_nil (err e) = ok none
  node_or_nil panic = panic
  node_or_nil out_of_fuel = out_of_fuel

  unfoldable pub find_node_for_path : Option ast.Node → Bytes → Exec (Option ast.Node)
  unfolding find_path node_or_nil
  find_node_for_path n path = node_or_nil (find_path path n)

  unfoldable pub get_range_for_node_path : Option ast.Node → ℕ → Bytes → Exec Range
  unfolding find_node_for_path get_range_from_node new_point_range
  get_range_for_node_path n start_line path = find_node_for_path n path >>= elim [
    | none ↦ ok (new_point_range start_line 0)
    | some found ↦ ok (get_range_from_node found)
  ]
