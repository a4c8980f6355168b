-- ===== src/YamlAstSimple/Lexer/KeyText.antt =====
-- The positions that a mapping line gives for its key and its value, against the line as it stands
-- in the file.
use nobl9_language_server.Base.{ℕ, ◌<◌, ◌≤◌, ◌≡◌, ◌≢◌, Option, none, some, drop, length, get_elem?}
use nobl9_language_server.Text.{Bytes}
use nobl9_language_server.YamlAstSimple.Lines.{Line, slice}

-- What a mapping line `l` made of `raw` is known to be.
abbrev IsMade : Bytes → Line → Type 0
IsMade raw l =
    (drop l.indent raw ≡ l.value)
    × (l.indent ≤ length raw)
    × ((c : ℕ) × (l.colon ≡ some c) × (c < length l.value) × (get_elem? l.value c ≡ some b':'))

-- `raw[start:end]`, at a pair of positions.
abbrev pub raw_slice : Bytes → ℕ × ℕ → Option Bytes
raw_slice raw (start, end) = slice raw start end

-- Positions at which the line gives the text that stands there in `raw`, with no panic.
abbrev pub IsAt : Bytes → ℕ × ℕ → Option Bytes → Type 0
IsAt raw pos text = (text ≡ raw_slice raw pos) × (text ≢ none)
