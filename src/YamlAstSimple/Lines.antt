-- ===== src/YamlAstSimple/Lines.antt =====
-- internal/yamlastsimple/parse.go: `Document`, `LineType`, `Line` and the methods of these.
use nobl9_language_server.Base.{
  ℕ, ◌+◌, ◌-◌, Bool, false, ◌&&◌, ◌||◌, not, Option, none, some, List, [], ◌∷◌, ltb, leb, ◌==◌,
  if◌then◌else◌, length, take, drop, get_elem?, bit_and, bit_or,
}
use nobl9_language_server.Text.{Bytes, equal}

-- A set of bits.
abbrev pub LineType : Type 0
LineType = ℕ

abbrev pub undefined : LineType
undefined = 1

abbrev pub empty : LineType
empty = 2

abbrev pub comment : LineType
comment = 4

abbrev pub mapping : LineType
mapping = 8

abbrev pub list : LineType
list = 16

abbrev pub block_scalar : LineType
block_scalar = 32

abbrev pub doc_separator : LineType
doc_separator = 64

-- `colon` is `valueColonIdx`, with `none` for -1.
pub record Line : Type 0 where
  pub path : Bytes
  pub generalized_path : Bytes
  pub line_type : LineType
  pub value : Bytes
  pub indent : ℕ
  pub colon : Option ℕ
  pub list_index : ℕ

pub record Document : Type 0 where
  pub offset : ℕ
  pub lines : List Line

unfoldable pub is_type : Line → LineType → Bool
is_type l typ = not (bit_and l.line_type typ == 0)

unfoldable pub add_type : Line → LineType → Line
add_type l typ = record l { line_type = bit_or l.line_type typ }

-- The test on the index that `HasMapValue` makes.
abbrev pub has_value_at : Option ℕ → Bytes → Bool
has_value_at none value = false
has_value_at (some c) value = ltb (c + 2) (length value)

unfoldable pub has_map_value : Line → Bool
unfolding is_type
has_map_value l = is_type l mapping && has_value_at l.colon l.value

-- Where the key ends, behind the indent.
abbrev pub key_length : Option ℕ → Bytes → ℕ
key_length none value = length value
key_length (some c) value = c

unfoldable pub get_key_pos : Line → ℕ × ℕ
unfolding is_type
get_key_pos l =
    if not (is_type l mapping) && not (is_type l undefined)
    then (0, 0)
    else (l.indent, l.indent + key_length l.colon l.value)

abbrev pub value_start : Option ℕ → ℕ
value_start none = 0
value_start (some c) = c + 2

unfoldable pub get_value_pos : Line → ℕ × ℕ
unfolding has_map_value
get_value_pos l =
    if not (has_map_value l)
    then (0, 0)
    else (l.indent + value_start l.colon, l.indent + length l.value)

-- `s[start:end]`; `none` is a panic.
unfoldable pub slice : Bytes → ℕ → ℕ → Option Bytes
slice s start end =
    if leb start end && leb end (length s) then some (drop start (take end s)) else none

-- `GetMapKey` and `GetMapValue` on the positions: the indent is taken off, and what falls below
-- zero gives the empty text.
unfoldable pub text_between : Line → ℕ × ℕ → Option Bytes
unfolding slice
text_between l (start, end) =
    if ltb start l.indent || ltb end l.indent
    then some []
    else slice l.value (start - l.indent) (end - l.indent)

unfoldable pub get_map_key : Line → Option Bytes
unfolding text_between get_key_pos
get_map_key l = text_between l (get_key_pos l)

unfoldable pub get_map_value : Line → Option Bytes
unfolding text_between get_value_pos
get_map_value l = text_between l (get_value_pos l)

-- `FindLine(lineNum - offset)`, the form in which the handlers call it: a number before the
-- document is negative there, and finds nothing.
unfoldable pub find_line : Document → ℕ → Option Line
find_line d n = if ltb n d.offset then none else get_elem? d.lines (n - d.offset)

-- The loop of both `FindLineByPath`s.
unfoldable pub find_by_path : List Line → Bytes → Option Line
find_by_path [] path = none
find_by_path (l ∷ ls) path = if equal l.path path then some l else find_by_path ls path

unfoldable pub find_line_by_path : Document → Bytes → Option Line
unfolding find_by_path
find_line_by_path d path = find_by_path d.lines path
