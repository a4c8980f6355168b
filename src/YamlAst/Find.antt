-- ===== src/YamlAst/Find.antt =====
-- internal/yamlast/node.go: the entry of a mapping that is closest to a line.
pub mod Entries
pub mod Choice
pub mod Closest
mod Tests
use nobl9_language_server.Base.{
  ℕ, zero, suc, Option, none, some, List, [], ◌∷◌, ltb, ◌==◌, if◌then◌else◌, Exec, ok, out_of_fuel,
  ◌>>=◌,
}

-- What the type switch of `walk` sees: the values of a mapping; the line of `Start`, the key and the
-- value of a `MappingValueNode`; the values of a sequence.
pub data View (Node : Type 0) : Type 0 where
  mapping : List Node → View Node
  mapping_value : ℕ → Node → Option Node → View Node
  sequence : List Node → View Node
  other : View Node

-- The syntax trees of goccy/go-yaml: a type of nodes, what each of them is, and the line of its
-- token, if it has a token with a position.
pub record Ast : Type 1 where
  pub Node : Type 0
  pub view : Node → View Node
  pub line_of : Node → Option ℕ

module _ (ast : Ast) where
  open ast use {Node, view, line_of}

  -- The loop of `findClosestNode`, with `match` and `lineCandidate`; `rest` is what the loop gives
  -- with the next match and candidate.
  unfoldable pub weigh :
      ℕ → Node → Option ℕ → Option Node → ℕ → (Option Node → ℕ → Option Node) → Option Node
  weigh line n none match candidate rest = rest match candidate
  weigh line n (some l) match candidate rest =
      if l == line
      then some n
      else if ltb l line
      then (if ltb candidate l then rest (some n) l else rest match candidate)
      else rest match candidate

  unfoldable pub closest_from : ℕ → List Node → Option Node → ℕ → Option Node
  unfolding weigh
  closest_from line [] match candidate = match
  closest_from line (n ∷ ns) match candidate =
      weigh line n (line_of n) match candidate (closest_from line ns)

  -- `findClosestNode`.
  unfoldable pub find_closest_node : ℕ → List Node → Option Node
  unfolding closest_from
  find_closest_node line ns = closest_from line ns none 0

  -- `walk` on a node that is not nil, where `go` walks on, with the node found so far.
  unfoldable pub walk_view :
      ℕ
      → (Option Node → Option Node → Exec (Option Node))
      → Node
      → View Node
      → Option Node
      → Exec (Option Node)
  unfolding find_closest_node
  walk_view line go n (mapping es) found = go (find_closest_node line es) found
  walk_view line go n (mapping_value start key value) found =
      if start == line
      then ok (some n)
      else if ltb line start
      then ok found
      else (do next ← go (some key) (some n); go value next)
  walk_view line go n (sequence es) found = go (find_closest_node line es) found
  walk_view line go n other found = ok found

  -- `walk`, as deep as the fuel.
  unfoldable pub walk : ℕ → ℕ → Option Node → Option Node → Exec (Option Node)
  unfolding walk_view
  walk fuel line none found = ok found
  walk zero line (some n) found = out_of_fuel
  walk (suc fuel) line (some n) found = walk_view line (walk fuel line) n (view n) found

  -- `Find` in a node.
  unfoldable pub find : ℕ → ℕ → Option Node → Exec (Option Node)
  unfolding walk
  find fuel line n = walk fuel line n n
