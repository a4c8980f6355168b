-- ===== src/Locate.antt =====
-- internal/completion/handler.go and internal/hover/handler.go: the loop that finds the line of a
-- position, in the same words in both; and `getLineValueForPath` and `getProjectNameFromRef`, which
-- internal/completion/references_completion.go and internal/hover/provider.go share too.
pub mod Tiles
pub mod Positions
mod Tests
use nobl9_language_server.Base.{
  ℕ, Option, none, some, List, [], ◌∷◌, if◌then◌else◌, Exec, ok, panic, ◌>>=◌,
}
use nobl9_language_server.Text.{Bytes}
use nobl9_language_server.Manifest.{is_blank}
use nobl9_language_server.YamlAstSimple.Lines.{Line, find_line, get_map_value}
use nobl9_language_server.Files.Simple.{SimpleObjectNode, find_object_line}
use nobl9_language_server.ObjectRef.{Reference, fallback_project_path}

-- The variables of the loop.
abbrev pub Place : Type 0
Place = Option SimpleObjectNode × Option Line

-- The loop: it ends at a node that has the line, and leaves the last node where none has.
unfoldable pub locate_from : Place → List SimpleObjectNode → ℕ → Place
unfolding find_line
locate_from place [] n = place
locate_from place (node ∷ nodes) n =
    let rest = locate_from (some node, none) nodes n in
    elim (find_line node.doc n) [ some line ↦ (some node, some line) | none ↦ rest ]

-- `node == nil || line == nil` is the second case.
abbrev pub both : Place → Option (SimpleObjectNode × Line)
both (some node, some line) = some (node, line)
both _ = none

unfoldable pub locate : List SimpleObjectNode → ℕ → Option (SimpleObjectNode × Line)
unfolding locate_from
locate nodes n = both (locate_from (none, none) nodes n)

-- A value read from the line, which may panic.
abbrev pub value_of_line : Option Line → Exec Bytes
value_of_line none = ok []
value_of_line (some l) = elim (get_map_value l) [ none ↦ panic | some v ↦ ok v ]

unfoldable pub get_line_value_for_path : SimpleObjectNode → Bytes → Exec Bytes
unfolding find_object_line get_map_value
get_line_value_for_path node path = value_of_line (find_object_line node path)

unfoldable pub get_project_name_from_ref : SimpleObjectNode → Reference → Exec Bytes
unfolding get_line_value_for_path is_blank fallback_project_path
get_project_name_from_ref node r =
    if is_blank r.project_path
    then ok []
    else (get_line_value_for_path node r.project_path >>= λ name.
        if is_blank name
        then get_line_value_for_path node (fallback_project_path r r.kind)
        else ok name)
