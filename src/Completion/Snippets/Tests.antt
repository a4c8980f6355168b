-- ===== src/Completion/Snippets/Tests.antt =====
-- A snippet put below a list.
use nobl9_language_server.Base.{◌≡◌, refl, none, [], ◌∷◌}
use nobl9_language_server.Text.{codes, split, equal, has_prefix}
use nobl9_language_server.Manifest.{no_kind}
use nobl9_language_server.YamlAstSimple.Lines.{Line, list, empty, comment, find_line, undefined}
use nobl9_language_server.YamlAstSimple.Lexer.{plain_line}
use nobl9_language_server.Files.{pos}
use nobl9_language_server.Files.Simple.{SimpleObjectNode}
use nobl9_language_server.Locate.{locate}
use nobl9_language_server.Completion.Snippets.{
  find_line_back, filter_comment_and_empty_lines, format_object_to_array_element, complete_snippets,
  snippet_item,
}
use nobl9_language_server.Completion.Snippets.Nearest.{IsNearest, find_line_back-IsNearest}
use nobl9_language_server.Completion.Snippets.Elements.{filled, as_element, filled-format}

filled-format_example :
    filled (split b'\n' (format_object_to_array_element (codes "a: b\n\nc:\n  d\n")))
    ≡ as_element (split b'\n' (codes "a: b\n\nc:\n  d\n"))
filled-format_example = filled-format (codes "a: b\n\nc:\n  d\n")

format_runs :
    format_object_to_array_element (codes "a: b\n\nc:\n  d\n") ≡ codes "a: b\n  c:\n    d\n"
unfolding format_object_to_array_element codes
format_runs = refl

abbrev item_line : Line
item_line = record (plain_line list 0 (codes "- a")) { path = codes "$[0]" }

abbrev last_line : Line
last_line = record (plain_line undefined 0 []) { generalized_path = b'$' ∷ []; path = b'$' ∷ [] }

-- An element, a blank line, a comment, and the line of the position.
abbrev node : SimpleObjectNode
node = record {
  kind = no_kind;
  version = [];
  doc = record {
    offset = 0;
    lines = item_line ∷ plain_line empty 0 [] ∷ plain_line comment 0 (codes "#") ∷ last_line ∷ [];
  };
  list_element = none;
}

find_line_back-IsNearest_example :
    IsNearest filter_comment_and_empty_lines node.doc 2
      (find_line_back filter_comment_and_empty_lines (node ∷ []) (pos 2))
unfolding locate find_line
find_line_back-IsNearest_example =
    find_line_back-IsNearest filter_comment_and_empty_lines (node ∷ []) 0 2 {node = node}
      {l = plain_line comment 0 (codes "#")} (refl, tt) refl

snippet_becomes_element :
    complete_snippets
      (record { name = codes "x"; snippet = codes "a: b\nc: d\n" } ∷ [])
      3
      (node ∷ [])
      last_line
    ≡ record (snippet_item (record { name = codes "x"; snippet = [] })) {
      insert_text = codes "- a: b\n  c: d\n";
    }
      ∷ []
unfolding complete_snippets codes equal has_prefix find_line format_object_to_array_element
snippet_becomes_element = refl
