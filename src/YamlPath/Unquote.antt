-- ===== src/YamlPath/Unquote.antt =====
-- `strconv.Unquote` on a text in double quotes, and internal/yamlpath/path.go: `unquoteKey`.
use nobl9_language_server.Base.{
  ℕ, ◌+◌, ◌-◌, ◌*◌, Bool, true, false, ◌&&◌, ◌||◌, Option, none, some, List, [], ◌∷◌, ◌++◌, ltb,
  leb, ◌==◌, if◌then◌else◌, Exec, ok, err, panic, external,
}
use nobl9_language_server.Text.{Bytes, has_suffix}
use nobl9_language_server.Text.Runes.{Rune, runes, encode, within}

-- The value of a hexadecimal digit.
unfoldable pub unhex : ℕ → Option ℕ
unhex c =
    if within b'0' b'9' c
    then some (c - b'0')
    else if within b'a' b'f' c
    then some (c - b'a' + 10)
    else if within b'A' b'F' c
    then some (c - b'A' + 10)
    else none

-- What is read behind a backslash.
pub data Escape : Type 0 where
  -- A character that stands for itself or for a control character.
  plain : ℕ → Escape
  -- So many more digits to the base 16, and whether they name a byte.
  hex : ℕ → Bool → Escape
  -- The first of three octal digits.
  octal : ℕ → Escape
  bad : Escape

escape_of : ℕ → Escape
escape_of c =
    if c == b'a'
    then plain 7
    else if c == b'b'
    then plain 8
    else if c == b'f'
    then plain 12
    else if c == b'n'
    then plain 10
    else if c == b'r'
    then plain 13
    else if c == b't'
    then plain 9
    else if c == b'v'
    then plain 11
    else if c == b'\\'
    then plain b'\\'
    else if c == b'"'
    then plain b'"'
    else if c == b'x'
    then hex 2 true
    else if c == b'u'
    then hex 4 false
    else if c == b'U'
    then hex 8 false
    else if within b'0' b'7' c
    then octal (c - b'0')
    else bad

-- The state between two characters: outside an escape, behind a backslash, or within digits to a
-- base with the value so far; `byte` says that the digits name a byte and not a rune.
pub data Mode : Type 0 where
  outside escaped : Mode
  digits_left : ℕ → ℕ → ℕ → Bool → Mode

digit_of : ℕ → ℕ → Option ℕ
unfolding unhex
digit_of base c =
    if base == 8 then (if within b'0' b'7' c then some (c - b'0') else none) else unhex c

-- `utf8.ValidRune`.
valid_rune : ℕ → Bool
valid_rune r = ltb r 0xD800 || within 0xE000 0x10FFFF r

-- The character that the digits named; a byte is at most 255.
named : ℕ → Bool → Option Bytes
unfolding valid_rune
named v byte =
    if byte
    then (if ltb 255 v then none else some (v ∷ []))
    else if valid_rune v
    then some (encode v)
    else none

-- What a character adds, and the state behind it.
read_char : Mode → ℕ → Option (Bytes × Mode)
unfolding escape_of digit_of named
read_char outside c =
    if c == b'"' || c == b'\n'
    then none
    else if c == b'\\'
    then some ([], escaped)
    else some (encode c, outside)
read_char escaped c = elim (escape_of c) [
  | plain d ↦ some (encode d, outside)
  | hex n byte ↦ some ([], digits_left n 16 0 byte)
  | octal d ↦ some ([], digits_left 2 8 d true)
  | bad ↦ none
]
read_char (digits_left n base v byte) c = elim (digit_of base c) [
  | none ↦ none
  | some d ↦
      if leb n 1
      then elim (named (v * base + d) byte) [ none ↦ none | some bs ↦ some (bs, outside) ]
      else some ([], digits_left (n - 1) base (v * base + d) byte)
]

-- The body of the literal. Its end must stand outside of an escape.
read_body : Mode → List Rune → Option Bytes
unfolding read_char
read_body outside [] = some []
read_body _ [] = none
read_body m (r ∷ rs) = elim (read_char m r.char) [
  | none ↦ none
  | some (bs, m') ↦ elim (read_body m' rs) [ none ↦ none | some rest ↦ some (bs ++ rest) ]
]

-- Without the last byte, if that is the quote.
strip_last : Bytes → Option Bytes
strip_last [] = none
strip_last (c ∷ []) = if c == b'"' then some [] else none
strip_last (c ∷ d ∷ cs) = elim (strip_last (d ∷ cs)) [ none ↦ none | some init ↦ some (c ∷ init) ]

-- `strconv.Unquote` on a text that begins with a double quote, given what follows that.
unfoldable pub unquote_double : Bytes → Option Bytes
unfolding read_body strip_last
unquote_double cs = elim (strip_last cs) [
  | none ↦ none
  | some body ↦ read_body outside (runes body)
]

-- Without the last byte, whatever that is.
unfoldable pub drop_last : Bytes → Bytes
drop_last [] = []
drop_last (c ∷ []) = []
drop_last (c ∷ d ∷ cs) = c ∷ drop_last (d ∷ cs)

abbrev pub of_unquoted : Option Bytes → Exec Bytes
of_unquoted none = err (external 0)
of_unquoted (some key) = ok key

abbrev pub of_single : ℕ → Bytes → Bytes
of_single c cs = if c == b'\'' && has_suffix (b'\'' ∷ []) cs then drop_last cs else c ∷ cs

-- It is called on a key that is not empty; `key[0]` would panic on that.
unfoldable pub unquote_key : Bytes → Exec Bytes
unfolding unquote_double drop_last
unquote_key [] = panic
unquote_key (c ∷ cs) = if c == b'"' then of_unquoted (unquote_double cs) else ok (of_single c cs)
