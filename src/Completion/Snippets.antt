-- ===== src/Completion/Snippets.antt =====
-- internal/completion/snippets.go. The decoded snippets.json is a parameter.
pub mod Back
pub mod Nearest
pub mod Elements
mod Tests
use nobl9_language_server.Base.{
  ℕ, zero, suc, Bool, true, false, ◌||◌, not, Option, none, some, List, [], ◌∷◌, ◌++◌, map,
  if◌then◌else◌, Exec, ok,
}
use nobl9_language_server.Text.{Bytes, codes, equal, has_prefix, split}
use nobl9_language_server.YamlAstSimple.Lines.{
  Line, Document, is_type, find_line, list, comment, empty, doc_separator,
}
use nobl9_language_server.Files.{ℤ, pos, negsuc}
use nobl9_language_server.Files.Simple.{SimpleObjectNode}
use nobl9_language_server.Completion.{
  Item, snippet_completion, snippet_text, Params, Provider, keys_completion,
}

-- `n - 1`.
abbrev pub before : ℕ → ℤ
before zero = negsuc 0
before (suc n) = pos n

unfoldable pub filter_comment_and_empty_lines : Line → Bool
unfolding is_type
filter_comment_and_empty_lines l = is_type l comment || is_type l empty

module _ (filter : Line → Bool) where
  -- The inner loop from a number on that is not negative; below zero `FindLine` finds nothing. It
  -- gives the number that it ends with beside the line.
  abbrev pub stop_or : ℕ → Option Line → Option Line × ℤ → Option Line × ℤ
  stop_or n none back = (none, pos n)
  stop_or n (some l) back = if filter l then back else (some l, pos n)

  unfoldable pub find_back : Document → ℕ → Option Line × ℤ
  unfolding find_line
  find_back doc zero = stop_or zero (find_line doc zero) (none, negsuc 0)
  find_back doc (suc n) = let back = find_back doc n in stop_or (suc n) (find_line doc (suc n)) back

  unfoldable pub find_back_from : Document → ℤ → Option Line × ℤ
  unfolding find_back
  find_back_from doc (pos n) = find_back doc n
  find_back_from doc (negsuc n) = (none, negsuc n)

  -- `findLine`: a later node goes on with the number that the one before it ended with.
  abbrev pub or_else : Option Line × ℤ → (ℤ → Option Line) → Option Line
  or_else (some l, n) rest = some l
  or_else (none, n) rest = rest n

  unfoldable pub find_line_back : List SimpleObjectNode → ℤ → Option Line
  unfolding find_back_from
  find_line_back [] n = none
  find_line_back (node ∷ nodes) n =
      or_else (find_back_from node.doc n) (λ m. find_line_back nodes m)

-- One round of the loop of `formatObjectToArrayElement`: blank parts are passed over, all others
-- but the first are indented, and all others but the last end in a line break.
abbrev pub indent_of : Bool → Bytes
indent_of true = []
indent_of false = b' ' ∷ b' ' ∷ []

abbrev pub break_before : List Bytes → Bytes
break_before [] = []
break_before (p ∷ ps) = b'\n' ∷ []

abbrev pub element_line : Bool → Bytes → List Bytes → Bytes
element_line first [] rest = []
element_line first (c ∷ cs) rest = indent_of first ++ ((c ∷ cs) ++ break_before rest)

unfoldable pub element_lines : Bool → List Bytes → Bytes
element_lines first [] = []
element_lines first (p ∷ ps) = element_line first p ps ++ element_lines false ps

unfoldable pub format_object_to_array_element : Bytes → Bytes
unfolding split element_lines
format_object_to_array_element s = element_lines true (split b'\n' s)

-- The conditions on the line above, in the loop over the items.
abbrev pub separated : Option Line → Bytes → Bytes
separated none text = text
separated (some prev) text =
    if is_type prev list
    then codes "- " ++ format_object_to_array_element text
    else if not (is_type prev doc_separator)
    then codes "---\n" ++ text
    else text

unfoldable pub snippet_insert_text : Line → Option Line → Bytes → Bytes
unfolding codes has_prefix is_type format_object_to_array_element
snippet_insert_text line prev text =
    if has_prefix (codes "$[") line.path
    then format_object_to_array_element text
    else separated prev text

-- `snippetsConfigData`, and the items that are made of them.
pub record Snippet : Type 0 where
  pub name : Bytes
  pub snippet : Bytes

abbrev pub snippet_item : Snippet → Item
snippet_item s = record {
  label = s.name;
  kind = snippet_completion;
  insert_text = s.snippet;
  format = snippet_text;
}

unfoldable pub setup_snippet_items : List Snippet → List Item
setup_snippet_items snippets = map snippet_item snippets

module _ (snippets : List Snippet) where
  abbrev pub placed : Line → Option Line → Item → Item
  placed line prev item = record item {
    insert_text = snippet_insert_text line prev item.insert_text;
  }

  unfoldable pub complete_snippets : ℕ → List SimpleObjectNode → Line → List Item
  unfolding equal find_line_back filter_comment_and_empty_lines snippet_insert_text
      setup_snippet_items
  complete_snippets n file line =
      if not (equal line.generalized_path (b'$' ∷ []))
      then []
      else map (placed line (find_line_back filter_comment_and_empty_lines file (before n)))
          (setup_snippet_items snippets)

  abbrev pub snippets_provider : Provider
  snippets_provider = record {
    provider_type = keys_completion;
    complete = λ params file node line. ok (complete_snippets params.position.line file line);
  }
