-- ===== src/YamlAst.antt =====
-- internal/yamlast/parse.go: the documents of goccy/go-yaml flattened into nodes with their lines.
pub mod Spans
pub mod Find
mod Tests
use nobl9_language_server.Base.{
  ℕ, suc, ◌+◌, ◌-◌, Bool, true, false, Option, none, some, List, [], ◌∷◌, ◌++◌, if◌then◌else◌, Exec,
  ok, ◌>>=◌,
}
use nobl9_language_server.Text.{Bytes, count}

-- The body of a document: the elements of a sequence, or one node, each with the line of its token.
pub data Body (N : Type 0) : Type 0 where
  sequence : List (ℕ × N) → Body N
  single : ℕ → N → Body N

-- `ast.DocumentNode`: the line of its separator, if it begins with one, and its body.
pub record YamlDocument (N : Type 0) : Type 0 where
  pub start : Option ℕ
  pub body : Option (Body N)

pub record Node (N : Type 0) : Type 0 where
  pub node : Option N
  pub start_line : ℕ
  pub end_line : ℕ
  pub is_separator : Bool

abbrev pub line_or_zero : Option ℕ → ℕ
line_or_zero none = 0
line_or_zero (some line) = line

module _ {N : Type 0} where
  abbrev pub node_at : ℕ → Option N → Node N
  node_at line n = record { node = n; start_line = line; end_line = 0; is_separator = false }

  unfoldable pub element_nodes : List (ℕ × N) → List (Node N)
  element_nodes [] = []
  element_nodes ((line, n) ∷ rest) = node_at line (some n) ∷ element_nodes rest

  unfoldable pub separator_nodes : Option ℕ → List (Node N)
  separator_nodes none = []
  separator_nodes (some line) =
      record { node = none; start_line = line; end_line = line; is_separator = true } ∷ []

  unfoldable pub body_nodes : Option ℕ → Option (Body N) → List (Node N)
  unfolding element_nodes
  body_nodes start (some (sequence items)) = element_nodes items
  body_nodes start (some (single line n)) = node_at line (some n) ∷ []
  body_nodes start none = node_at (line_or_zero start) none ∷ []

  unfoldable pub document_nodes : List (YamlDocument N) → List (Node N)
  unfolding separator_nodes body_nodes
  document_nodes [] = []
  document_nodes (d ∷ ds) =
      separator_nodes d.start ++ (body_nodes d.start d.body ++ document_nodes ds)

  -- A node ends in front of the next one, the last one with the text. A node behind another starts
  -- on a line of its own, so the difference is that of the source.
  unfoldable pub set_ends : ℕ → List (Node N) → List (Node N)
  set_ends total [] = []
  set_ends total (n ∷ []) = record n { end_line = total } ∷ []
  set_ends total (n ∷ m ∷ rest) =
      record n { end_line = m.start_line - 1 } ∷ set_ends total (m ∷ rest)

  unfoldable pub drop_separators : List (Node N) → List (Node N)
  drop_separators [] = []
  drop_separators (n ∷ rest) =
      let kept = drop_separators rest in if n.is_separator then kept else n ∷ kept

  unfoldable pub flatten : Bytes → List (YamlDocument N) → List (Node N)
  unfolding document_nodes set_ends drop_separators count
  flatten content docs = drop_separators (set_ends (count b'\n' content + 1) (document_nodes docs))

  -- `Parse`, on the parser of the package.
  unfoldable pub parse : (Bytes → Exec (List (YamlDocument N))) → Bytes → Exec (List (Node N))
  unfolding flatten
  parse parser content = parser content >>= λ docs. ok (flatten content docs)
