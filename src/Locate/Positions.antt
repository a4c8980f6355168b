-- ===== src/Locate/Positions.antt =====
-- The positions of a key and a value that completion and hover compare with, against the text.
use nobl9_language_server.Base.{ℕ, ◌≡◌, Option, some, get_elem?}
use nobl9_language_server.Text.{Bytes}
use nobl9_language_server.YamlAstSimple.Lines.{
  Line, LineType, get_key_pos, get_value_pos, get_map_key, get_map_value,
}
use nobl9_language_server.YamlAstSimple.Lexer.KeyText.{IsAt}

-- The key is the text between its positions, with a colon behind it, and so is the value.
abbrev pub Marks : Bytes → Line → Type 0
Marks raw l =
    IsAt raw (get_key_pos l) (get_map_key l)
    × (get_elem? raw (get_key_pos l).1 ≡ some b':')
    × IsAt raw (get_value_pos l) (get_map_value l)

-- The line with other fields that its positions depend on.
abbrev with_text : Line → LineType → Bytes → ℕ → Option ℕ → Line
with_text l t v i c = record l { line_type = t; value = v; indent = i; colon = c }
