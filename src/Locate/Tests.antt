-- ===== src/Locate/Tests.antt =====
-- A position in a text of two documents.
use nobl9_language_server.Base.{refl, true, none, some, Option, List, [], Exec, ok}
use nobl9_language_server.Text.{Bytes, codes, split, equal, last_index, index}
use nobl9_language_server.Text.Runes.{runes, is_space, trim_space}
use nobl9_language_server.Text.Decimal.{itoa}
use nobl9_language_server.Manifest.{service_kind}
use nobl9_language_server.YamlAstSimple.Scan.{
  get_indent_level, is_mapping_node, is_block_scalar, get_colon_index,
}
use nobl9_language_server.YamlAstSimple.Lines.{Line, get_map_value}
use nobl9_language_server.YamlAstSimple.Lexer.{plain_line}
use nobl9_language_server.Files.Simple.{Sdk, SimpleObjectNode, parse_simple_object_file}
use nobl9_language_server.Locate.{locate}
use nobl9_language_server.Locate.Tiles.{IsLocated, locate-IsLocated}

abbrev sdk : Sdk
sdk = record {
  parse_kind = λ s. service_kind;
  is_kind = λ s. true;
  parse_version = λ s. s;
  is_version = λ s. true;
  version_v1alpha = codes "n9/v1alpha";
}

abbrev content : Bytes
content = codes "a: b\n---\nc: d"

abbrev nodes_of : Exec (List SimpleObjectNode) → List SimpleObjectNode
nodes_of (ok nodes) = nodes
nodes_of _ = []

abbrev nodes : List SimpleObjectNode
nodes = nodes_of (parse_simple_object_file sdk content)

locate-IsLocated_example : IsLocated 2 nodes (some (codes "c: d")) (locate nodes 2)
unfolding codes split equal get_indent_level runes is_mapping_node is_block_scalar get_colon_index
    is_space trim_space last_index itoa get_map_value index parse_simple_object_file
locate-IsLocated_example = locate-IsLocated sdk content {nodes = nodes} 2 refl

-- The line that the text ends with, as it was parsed and located.
abbrev line_of : Option (SimpleObjectNode × Line) → Line
line_of none = plain_line 0 0 []
line_of (some (node, l)) = l
