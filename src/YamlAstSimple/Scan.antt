-- ===== src/YamlAstSimple/Scan.antt =====
-- internal/yamlastsimple/parse.go: `getIndentLevel`, `isBlockScalar`, `isMappingNode` and
-- `getColonIndex`, the scans over one line.
pub mod Indent
pub mod Colon
pub mod Key
use nobl9_language_server.Base.{
  ℕ, zero, suc, ◌+◌, Bool, true, false, ◌&&◌, ◌||◌, not, Option, none, some, List, [], ◌∷◌, reverse,
  ltb, leb, ◌==◌, if◌then◌else◌,
}
use nobl9_language_server.Text.{Bytes}
use nobl9_language_server.Text.Runes.{Rune, width, runes, is_space}

-- `asciiSpace[r] != 0`, for an index within the table.
unfoldable pub is_ascii_space : ℕ → Bool
is_ascii_space r = r == 9 || r == 10 || r == 11 || r == 12 || r == 13 || r == b' '

-- `r >= utf8.RuneSelf && !unicode.IsSpace(r) || asciiSpace[r] == 0`. The table has 256 entries, so
-- the index panics (`none`) for the white space beyond Latin-1.
unfoldable pub ends_indent : ℕ → Option Bool
unfolding is_ascii_space
ends_indent r =
    if leb 0x80 r && not (is_space r)
    then some true
    else if ltb r 256
    then some (not (is_ascii_space r))
    else none

unfoldable pub indent_from : ℕ → List Rune → Option ℕ
unfolding ends_indent
indent_from ctr [] = some ctr
indent_from ctr (r ∷ rs) =
    let rest = indent_from (ctr + 1) rs in
    elim (ends_indent r.char) [ none ↦ none | some stop ↦ if stop then some ctr else rest ]

unfoldable pub get_indent_level : Bytes → Option ℕ
unfolding indent_from
get_indent_level s = indent_from 0 (runes s)

-- The loop of `isBlockScalar`, from the last byte on. A byte is within the table.
unfoldable pub block_scalar_from : Bytes → Bool
unfolding is_ascii_space
block_scalar_from [] = false
block_scalar_from (c ∷ cs) =
    let rest = block_scalar_from cs in
    if leb 0x80 c && not (is_space c) || not (is_ascii_space c)
    then c == b'|' || c == b'>'
    else rest

unfoldable pub is_block_scalar : Bytes → Bool
unfolding block_scalar_from
is_block_scalar s = block_scalar_from (reverse s)

unfoldable pub mapping_from : List Rune → Bool
mapping_from [] = false
mapping_from (r ∷ rs) =
    if r.char == b'#' then false else if r.char == b':' then true else mapping_from rs

unfoldable pub is_mapping_node : Bytes → Bool
unfolding mapping_from
is_mapping_node s = mapping_from (runes s)

-- The variables of the loop of `getColonIndex`.
pub record Quoting : Type 0 where
  pub key_started : Bool
  pub single : Bool
  pub double : Bool

-- What a round of the loop does: return, or go on.
pub data Round : Type 0 where
  return : Option ℕ → Round
  go_on : Quoting → Round

unfoldable pub colon_round : Quoting → ℕ → ℕ → Round
colon_round q i r =
    if i == 0 && r == b'-'
    then go_on q
    else if r == b'"' && not q.single
    then go_on (record q { double = not q.double; key_started = true })
    else if r == b'\'' && not q.double
    then go_on (record q { single = not q.single; key_started = true })
    else if q.key_started && is_space r && not q.single && not q.double
    then return none
    else if not q.key_started && not (is_space r)
    then go_on (record q { key_started = true })
    else if r == b':' && not q.single && not q.double
    then return (some i)
    else go_on q

unfoldable pub colon_from : Quoting → ℕ → List Rune → Option ℕ
unfolding colon_round
colon_from q i [] = none
colon_from q i (r ∷ rs) = elim (colon_round q i r.char) [
  | return o ↦ o
  | go_on q' ↦ colon_from q' (i + width r) rs
]

abbrev pub unquoted : Quoting
unquoted = record { key_started = false; single = false; double = false }

unfoldable pub get_colon_index : Bytes → Option ℕ
unfolding colon_from
get_colon_index s = colon_from unquoted 0 (runes s)
