-- ===== src/YamlAstSimple/Paths.antt =====
-- internal/yamlastsimple/parse.go: `postProcessPaths`, `findPreviousLine`, `generalizePath` and
-- `replaceListIndicesWithWildcards`.
use nobl9_language_server.Base.{
  ℕ, ◌+◌, Bool, true, false, ◌&&◌, ◌||◌, not, Option, none, some, List, [], ◌∷◌, ◌++◌, map, ltb,
  ◌==◌, if◌then◌else◌, take, drop,
}
use nobl9_language_server.Text.{Bytes, index, last_index}
use nobl9_language_server.Text.Decimal.{itoa}
use nobl9_language_server.Text.Runes.{Rune, runes}
use nobl9_language_server.YamlAstSimple.Lines.{Line, is_type, comment, mapping, list, doc_separator}

-- Over the lines before the one at `indent`, the nearest first.
unfoldable pub find_previous_line : List Line → ℕ → Option Line
unfolding is_type
find_previous_line [] indent = none
find_previous_line (l ∷ ls) indent =
    let further = find_previous_line ls indent in
    if not (is_type l mapping) && not (is_type l list)
    then further
    else if ltb l.indent indent
    then some l
    else if l.indent == indent
    then some l
    else further

-- `case line.IsType(LineTypeList)`.
unfoldable pub list_path : Option Line → Line → Line
list_path none line = record line { path = b'$' ∷ b'[' ∷ b'0' ∷ b']' ∷ b'.' ∷ line.path }
list_path (some prev) line =
    if ltb prev.indent line.indent
    then record line { path = prev.path ++ (b'[' ∷ b'0' ∷ b']' ∷ b'.' ∷ line.path) }
    else elim (last_index b'[' prev.path) [
      | none ↦ line
      | some i ↦ record line {
        list_index = prev.list_index + 1;
        path =
            take i prev.path ++ (b'[' ∷ (itoa (prev.list_index + 1) ++ (b']' ∷ b'.' ∷ line.path)));
      }
    ]

-- `default`.
unfoldable pub key_path : Option Line → Line → Line
key_path none line = record line { path = b'$' ∷ b'.' ∷ line.path }
key_path (some prev) line =
    if ltb prev.indent line.indent
    then record line { path = prev.path ++ (b'.' ∷ line.path) }
    else elim (last_index b'.' prev.path) [
      | none ↦ line
      | some i ↦ record line {
        list_index = prev.list_index;
        path = take i prev.path ++ (b'.' ∷ line.path);
      }
    ]

-- The trailing dot is taken off.
unfoldable pub strip_dot : Bytes → Bytes
strip_dot [] = []
strip_dot (c ∷ []) = if c == b'.' then [] else c ∷ []
strip_dot (c ∷ d ∷ cs) = c ∷ strip_dot (d ∷ cs)

-- One round of the loop: the lines before it are processed already.
unfoldable pub process_line : List Line → Line → Line
unfolding find_previous_line list_path key_path strip_dot is_type
process_line before line =
    if is_type line doc_separator || is_type line comment
    then line
    else let prev = find_previous_line before line.indent in
      let placed = if is_type line list then list_path prev line else key_path prev line in
      record placed { path = strip_dot placed.path }

-- The loop, with the lines done so far, the last one first.
unfoldable pub process_from : List Line → List Line → List Line
unfolding process_line
process_from before [] = []
process_from before (line ∷ rest) =
    let done = process_line before line in done ∷ process_from (done ∷ before) rest

-- What a round of the loop of `replaceListIndicesWithWildcards` appends for the byte `c`.
unfoldable pub wildcard_bytes : Bool → ℕ → Bytes
wildcard_bytes arr c =
    if c == b'[' then c ∷ [] else if c == b']' then b'*' ∷ c ∷ [] else if arr then [] else c ∷ []

-- `arrStart` after it.
unfoldable pub in_brackets : Bool → ℕ → Bool
in_brackets arr c = if c == b'[' then true else if c == b']' then false else arr

-- `path[i]` is the first byte of the rune at `i`: the bytes behind it are not looked at.
unfoldable pub wildcards_from : Bool → List Rune → Bytes
unfolding wildcard_bytes in_brackets
wildcards_from arr [] = []
wildcards_from arr (r ∷ rs) =
    wildcard_bytes arr r.lead ++ wildcards_from (in_brackets arr r.lead) rs

unfoldable pub replace_list_indices : Bytes → Bytes
unfolding wildcards_from
replace_list_indices path = wildcards_from false (runes path)

-- `$[0].a` becomes `$.a`.
unfoldable pub drop_root_index : Bytes → Bytes
drop_root_index path = elim (index b']' path) [ none ↦ path | some i ↦ b'$' ∷ drop (i + 1) path ]

unfoldable pub generalize_path : Bytes → Bytes
unfolding replace_list_indices drop_root_index
generalize_path [] = []
generalize_path (c ∷ []) = c ∷ []
generalize_path (c ∷ d ∷ cs) =
    replace_list_indices
      (if c == b'$' && d == b'[' then drop_root_index (c ∷ d ∷ cs) else c ∷ d ∷ cs)

abbrev pub with_general : Line → Line
with_general l = record l { generalized_path = generalize_path l.path }

unfoldable pub post_process_paths : List Line → List Line
unfolding process_from generalize_path
post_process_paths lines = map with_general (process_from [] lines)
