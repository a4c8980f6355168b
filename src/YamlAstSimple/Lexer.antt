-- ===== src/YamlAstSimple/Lexer.antt =====
-- internal/yamlastsimple/parse.go: `parseDocumentLines`.
pub mod Positions
pub mod KeyText
use nobl9_language_server.Base.{
  ℕ, zero, suc, ◌+◌, ◌-◌, Bool, true, false, ◌&&◌, not, Option, none, some, List, [], ◌∷◌, leb,
  ◌==◌, if◌then◌else◌, take, drop,
}
use nobl9_language_server.Text.{Bytes, codes, equal, has_prefix}
use nobl9_language_server.Text.Runes.{trim_space}
use nobl9_language_server.YamlAstSimple.Lines.{
  Line, undefined, empty, comment, mapping, list, block_scalar, doc_separator, add_type,
}
use nobl9_language_server.YamlAstSimple.Scan.{
  get_indent_level, get_colon_index, is_mapping_node, is_block_scalar,
}

-- The block scalar that the loop is in, if any, with the indent that its lines have at least.
pub record Block : Type 0 where
  pub active : Bool
  pub least : ℕ

abbrev pub no_block : Block
no_block = record { active = false; least = 0 }

-- A line with the fields that the literal `&Line{…}` leaves out at zero.
abbrev pub plain_line : ℕ → ℕ → Bytes → Line
plain_line typ indent value = record {
  path = [];
  generalized_path = [];
  line_type = typ;
  value = value;
  indent = indent;
  colon = none;
  list_index = 0;
}

-- `case line[0] == '-'`, before the prefix is cut off.
abbrev pub list_item : ℕ → Bytes → Option ℕ → Line
list_item n line none = plain_line list (n + 2) line
list_item n line (some c) =
    add_type
      (record (plain_line list (n + 2) line) {
        path = trim_space (drop 1 (take c line));
        colon = some c;
      })
      mapping

abbrev pub minus_two : Option ℕ → Option ℕ
minus_two none = none
minus_two (some c) = some (c - 2)

unfoldable pub lex_list : ℕ → Bytes → Line
unfolding add_type has_prefix
lex_list n line =
    let item = list_item n line (get_colon_index line) in
    if has_prefix (b'-' ∷ b' ' ∷ []) line
    then record item { value = drop 2 line; colon = minus_two item.colon }
    else item

abbrev pub key_line : ℕ → Bytes → Option ℕ → Line
key_line n line none = plain_line undefined n line
key_line n line (some c) = record (plain_line mapping n line) {
  path = trim_space (take c line);
  colon = some c;
}

-- `default` of the switch.
unfoldable pub lex_mapping : Block → ℕ → Bytes → Line × Block
lex_mapping b n line = if not (is_mapping_node line) then (plain_line undefined n line, b) else (
  key_line n line (get_colon_index line),
  if is_block_scalar line then record { active = true; least = n + 2 } else b,
)

-- The switch, on a line whose indent is cut off.
unfoldable pub lex_content : Block → ℕ → Bytes → Line × Block
unfolding lex_list lex_mapping
lex_content b n [] = (plain_line empty n [], b)
lex_content b n (c ∷ cs) =
    if c == b'#'
    then (plain_line comment n (c ∷ cs), b)
    else if c == b'-'
    then (lex_list n (c ∷ cs), b)
    else lex_mapping b n (c ∷ cs)

-- One round of the loop, on a line that is no separator.
unfoldable pub lex_line : Block → Bytes → Option (Line × Block)
unfolding lex_content
lex_line b raw = elim (get_indent_level raw) [
  | none ↦ none
  | some n ↦
      if b.active && leb b.least n
      then some (plain_line block_scalar n raw, b)
      else some (lex_content (record b { active = false }) n (drop n raw))
]

abbrev pub separator_line : Bytes → Line
separator_line = plain_line doc_separator 0

abbrev pub is_separator : Bytes → Bool
is_separator raw = equal raw (b'-' ∷ b'-' ∷ b'-' ∷ [])

-- The loop; `none` is a panic.
unfoldable pub lex_lines : Block → List Bytes → Option (List Line)
unfolding lex_line
lex_lines b [] = some []
lex_lines b (raw ∷ rest) = elim (is_separator raw) [
  | true ↦ some (separator_line raw ∷ [])
  | false ↦ elim (lex_line b raw) [
    | none ↦ none
    | some (line, b') ↦ elim (lex_lines b' rest) [ none ↦ none | some lines ↦ some (line ∷ lines) ]
  ]
]

unfoldable pub parse_document_lines : List Bytes → Option (List Line)
unfolding lex_lines
parse_document_lines = lex_lines no_block
