-- ===== src/YamlPath/Filter.antt =====
-- internal/yamlpath/path.go: `FilterNode`, `FilterFile` and the `filter` methods.
mod Ends
pub mod Longest
use nobl9_language_server.Base.{
  ℕ, zero, suc, ◌+◌, ◌-◌, Bool, true, false, ◌&&◌, ◌||◌, not, Option, none, some, List, [], ◌∷◌,
  ltb, ◌==◌, if◌then◌else◌, Exec, ok, err, panic, out_of_fuel, ◌>>=◌, invalid_query, not_found_node,
  get_elem?, length,
}
use nobl9_language_server.Text.{Bytes, equal, has_prefix, has_suffix}
use nobl9_language_server.YamlPath.{Step, selector, at_index, remove_child}
use nobl9_language_server.YamlPath.Unquote.{unquote_key, drop_last}

-- A `MappingValueNode`: the text of the token of its key, its value, and the node itself.
pub record Entry (Node : Type 0) : Type 0 where
  pub key : Bytes
  pub value : Node
  pub entry : Node

-- What a type switch on a node sees.
pub data View (Node : Type 0) : Type 0 where
  mapping : List (Entry Node) → View Node
  mapping_value : Entry Node → View Node
  sequence : List Node → View Node
  other : View Node

-- The syntax trees of goccy/go-yaml: some type of nodes, each of which can be looked at.
pub record Ast : Type 1 where
  pub Node : Type 0
  pub view : Node → View Node

-- The quotes are taken off a selector.
unfoldable pub bare : Bytes → Bytes
unfolding has_suffix drop_last
bare [] = []
bare (c ∷ []) = c ∷ []
bare (c ∷ d ∷ cs) =
    if c == b'\'' && has_suffix (b'\'' ∷ []) (d ∷ cs) then drop_last (d ∷ cs) else c ∷ d ∷ cs

-- A key that is not empty is unquoted.
unfoldable pub plain_key : Bytes → Exec Bytes
unfolding unquote_key
plain_key [] = ok []
plain_key (c ∷ cs) = unquote_key (c ∷ cs)

module _ (ast : Ast) where
  open ast use {Node, view}

  -- The loop of `filterMappingTypeNode`: the entry of that key, if there is one.
  unfoldable pub find_entry : Bytes → List (Entry Node) → Exec (Option (Entry Node))
  unfolding plain_key
  find_entry sel [] = ok none
  find_entry sel (e ∷ es) = do
    key ← plain_key e.key
    if equal key sel then ok (some e) else find_entry sel es

  -- `filterMappingValueNode`.
  unfoldable pub match_entry : Bytes → Entry Node → Option (Entry Node)
  match_entry sel e = if equal e.key sel then some e else none

  -- What a step finds: the node that it names, and the node in which the next step looks.
  unfoldable pub of_entry : Option (Entry Node) → Option (Node × Node)
  of_entry none = none
  of_entry (some e) = some (e.entry, e.value)

  unfoldable pub select_view : Bytes → View Node → Exec (Option (Node × Node))
  unfolding find_entry match_entry of_entry
  select_view sel (mapping es) = do found ← find_entry sel es; ok (of_entry found)
  select_view sel (mapping_value e) = ok (of_entry (match_entry sel e))
  select_view sel _ = err invalid_query

  unfoldable pub index_items : ℕ → List Node → Exec (Option (Node × Node))
  index_items i items = elim (get_elem? items i) [
    | none ↦ err invalid_query
    | some n ↦ ok (some (n, n))
  ]

  unfoldable pub index_view : ℕ → View Node → Exec (Option (Node × Node))
  unfolding index_items
  index_view i (sequence items) = index_items i items
  index_view i _ = err invalid_query

  unfoldable pub take_step : Step → Node → Exec (Option (Node × Node))
  unfolding select_view index_view bare
  take_step (selector name) n = select_view (bare name) (view n)
  take_step (at_index i) n = index_view i (view n)

  -- `filter` of a node with a child, and of the root; `none` is a nil node.
  unfoldable pub filter : List Step → Node → Exec (Option Node)
  unfolding take_step
  filter [] n = ok (some n)
  filter (s ∷ []) n = do
    found ← take_step s n
    ok (elim found [ none ↦ none | some (named, next) ↦ some named ])
  filter (s ∷ t ∷ rest) n =
      take_step s n >>= elim [ none ↦ ok none | some (named, next) ↦ filter (t ∷ rest) next ]

  -- The loop of `FilterNode`, with `firstMatch`. The path loses its last node where nothing was
  -- found. A nil node is handed back by the root alone, and is looked at by any other path.
  unfoldable pub filter_option : List Step → Option Node → Exec (Option Node)
  unfolding filter
  filter_option steps (some n) = filter steps n
  filter_option [] none = ok none
  filter_option (s ∷ rest) none = panic

  unfoldable pub filter_loop : ℕ → Bool → List Step → Option Node → Exec (Node × Bool)
  unfolding filter_option remove_child
  filter_loop zero first steps n = out_of_fuel
  filter_loop (suc fuel) first steps n = filter_option steps n >>= elim [
    | some found ↦ ok (found, first)
    | none ↦ filter_loop fuel false (remove_child steps) n
  ]

  -- `FilterNode` on the nodes behind the root, within as many rounds as these and one more.
  unfoldable pub filter_node : List Step → Option Node → Exec (Node × Bool)
  unfolding filter_loop
  filter_node steps n = filter_loop (length steps + 1) true steps n

  -- `FilterFile` on the bodies of the documents of a file. `FilterNode` hands back a node or an
  -- error, so that no document behind the first one is looked at.
  unfoldable pub filter_file : List Step → List (Option Node) → Exec (Node × Bool)
  unfolding filter_node
  filter_file steps [] = err not_found_node
  filter_file steps (body ∷ bodies) = do found ← filter_node steps body; ok found
