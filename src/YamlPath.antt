-- ===== src/YamlPath.antt =====
-- internal/yamlpath/path.go and internal/yamlpath/builder.go: paths, and how they are built, printed
-- and shortened. A path node has at most one child, so the nodes behind the root are a list.
pub mod Unquote
pub mod Parser
pub mod Filter
pub mod Match
mod Tests
use nobl9_language_server.Base.{
  ℕ, zero, suc, Bool, ◌&&◌, ◌||◌, Option, none, some, List, [], ◌∷◌, ◌++◌, ◌==◌, if◌then◌else◌,
  Exec, ok, panic,
}
use nobl9_language_server.Text.{Bytes, has_prefix, has_suffix, contains}
use nobl9_language_server.Text.Decimal.{itoa}

-- `selectorNode` and `indexNode`.
pub data Step : Type 0 where
  selector : Bytes → Step
  at_index : ℕ → Step

-- `PathBuilder`: the nodes behind the root, or `none` where `root` and `node` are nil.
abbrev pub PathBuilder : Type 0
PathBuilder = Option (List Step)

abbrev pub root : PathBuilder → PathBuilder
root b = some []

-- `b.node.chain(…)`, which panics at a nil node.
abbrev pub chain : PathBuilder → Step → Exec PathBuilder
chain none s = panic
chain (some steps) s = ok (some (steps ++ s ∷ []))

unfoldable pub child : PathBuilder → Bytes → Exec PathBuilder
child b name = chain b (selector name)

unfoldable pub index : PathBuilder → ℕ → Exec PathBuilder
index b i = chain b (at_index i)

-- `strings.ReplaceAll(name, "'", "\\'")`.
unfoldable pub escape_quotes : Bytes → Bytes
escape_quotes [] = []
escape_quotes (c ∷ cs) =
    let rest = escape_quotes cs in if c == b'\'' then b'\\' ∷ b'\'' ∷ rest else c ∷ rest

unfoldable pub normalize_selector_name : Bytes → Bytes
unfolding escape_quotes
normalize_selector_name name =
    if has_prefix (b'\'' ∷ []) name && has_suffix (b'\'' ∷ []) name
    then name
    else if contains (b'.' ∷ []) name || contains (b'*' ∷ []) name
    then b'\'' ∷ (escape_quotes name ++ b'\'' ∷ [])
    else name

unfoldable pub step_string : Step → Bytes
unfolding normalize_selector_name
step_string (selector name) = b'.' ∷ normalize_selector_name name
step_string (at_index i) = b'[' ∷ (itoa i ++ b']' ∷ [])

unfoldable pub steps_string : List Step → Bytes
unfolding step_string
steps_string [] = []
steps_string (s ∷ rest) = step_string s ++ steps_string rest

-- `Path.String`.
unfoldable pub path_string : List Step → Bytes
unfolding steps_string
path_string steps = b'$' ∷ steps_string steps

-- `removeChild`: the last node is taken off; the root stays.
unfoldable pub remove_child : List Step → List Step
remove_child [] = []
remove_child (s ∷ []) = []
remove_child (s ∷ t ∷ rest) = s ∷ remove_child (t ∷ rest)
