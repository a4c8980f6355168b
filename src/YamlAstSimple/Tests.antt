-- ===== src/YamlAstSimple/Tests.antt =====
-- Runs of the simple parser on small documents.
use nobl9_language_server.Base.{
  ◌≡◌, refl, ◌↔◌, ◌≤◌, none, some, List, [], ◌∷◌, ◌++◌, map, take, get_elem?, Exec, ok, panic, All,
  arith,
}
use nobl9_language_server.Text.{Bytes, codes, split, equal, last_index}
use nobl9_language_server.Text.Runes.{runes, is_space, trim_space}
use nobl9_language_server.Text.Decimal.{itoa}
use nobl9_language_server.YamlAstSimple.Scan.{
  get_indent_level, is_mapping_node, is_block_scalar, get_colon_index,
}
use nobl9_language_server.YamlAstSimple.Lines.{Line, Document}
use nobl9_language_server.YamlAstSimple.{parse_file}
use nobl9_language_server.YamlAstSimple.Panics.{AnyWide, parse_file-eq-panic_iff}
use nobl9_language_server.YamlAstSimple.Tiling.{Covers, parse_file-Covers}
use nobl9_language_server.YamlAstSimple.Lexer.{no_block, plain_line, lex_line}
use nobl9_language_server.YamlAstSimple.Scan.Indent.{IsWhite, IsVisible, get_indent_level-IsWhite}
use nobl9_language_server.YamlAstSimple.Scan.Key.{plain, double, get_colon_index-key_text}

abbrev paths : Exec (List Document) → List (List Bytes)
paths (ok docs) = map (λ d. map (λ l. l.path) d.lines) docs
paths _ = []

abbrev service : Bytes
service = codes "- kind: Service\n  spec:\n    a: |\n      x\n- kind: 'a:b'\n---\n# c\nq:"

small_documents :
    paths (parse_file service)
    ≡ (codes "$[0].kind"
        ∷ codes "$[0].spec"
        ∷ codes "$[0].spec.a"
        ∷ codes "$[0].spec.a"
        ∷ codes "$[1].kind"
        ∷ []
        ∷ [])
      ∷ ([] ∷ codes "$.q" ∷ [])
      ∷ []
unfolding parse_file codes split equal get_indent_level runes is_mapping_node is_block_scalar
    get_colon_index is_space trim_space last_index itoa
small_documents = refl

-- A line that begins with an ideographic space.
abbrev wide : Bytes
wide = codes "a: b\n" ++ 227 ∷ 128 ∷ 128 ∷ codes "c: d"

parse_file-eq-panic_iff_example : (parse_file wide ≡ panic) ↔ AnyWide (split b'\n' wide)
parse_file-eq-panic_iff_example = parse_file-eq-panic_iff wide

parse_file-Covers_example : Covers 0 (split b'\n' service) (parse_file service)
parse_file-Covers_example = parse_file-Covers service

get_indent_level-IsWhite_example :
    (2 ≤ 6) × All IsWhite (take 2 (codes "  a: b")) × IsVisible (get_elem? (codes "  a: b") 2)
unfolding get_indent_level codes runes
get_indent_level-IsWhite_example = get_indent_level-IsWhite (codes "  a: b") {n = 2} refl

-- The key `a"b: c"` in front of its colon, and in front of a blank.
get_colon_index-key_text_example :
    (get_colon_index (codes "a\"b: c\":d") ≡ some 7)
    × (get_colon_index (codes "a\"b: c\" d") ≡ none)
unfolding codes
get_colon_index-key_text_example =
    get_colon_index-key_text (plain b'a') (double (b'b' ∷ b':' ∷ b' ' ∷ b'c' ∷ []) ∷ []) (b'd' ∷ [])
      (
        (omega arith, omega arith, omega arith, omega arith, omega arith),
        (
          (
            (omega arith, omega arith),
            (
              (omega arith, omega arith),
              ((omega arith, omega arith), ((omega arith, omega arith), tt)),
            ),
          ),
          tt,
        ),
      )
      (omega arith)

abbrev lex_line_of : Bytes → Line
lex_line_of raw = elim (lex_line no_block raw) [ none ↦ plain_line 0 0 [] | some (l, b) ↦ l ]

abbrev listed : Bytes
listed = codes "- kind: Service"
