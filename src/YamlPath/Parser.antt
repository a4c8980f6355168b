-- ===== src/YamlPath/Parser.antt =====
-- internal/yamlpath/parse.go.
pub mod Termination
pub mod RoundTrip
pub mod Faults
use nobl9_language_server.Base.{
  ℕ, zero, suc, ◌+◌, ◌-◌, ◌*◌, Bool, true, false, ◌&&◌, ◌||◌, not, Option, none, some, List, [],
  ◌∷◌, ◌++◌, ltb, leb, ◌==◌, if◌then◌else◌, Exec, ok, err, panic, out_of_fuel, ◌>>=◌, invalid_path,
  invalid_number, take, drop, length, get_elem?,
}
use nobl9_language_server.Text.{Bytes}
use nobl9_language_server.Text.Runes.{chars, encode_all}
use nobl9_language_server.Text.Decimal.{is_digit, value_from}
use nobl9_language_server.YamlPath.{Step, PathBuilder, root, child, index}

-- What the three functions below hand back: the builder, the length of the buffer that they return
-- and the cursor. The buffer itself is dropped by the caller.
pub record Parsed : Type 0 where
  pub builder : PathBuilder
  pub length : ℕ
  pub cursor : ℕ

-- The loop of `parsePathDot` over what stands behind the dot: the key.
unfoldable pub scan_key : List ℕ → Exec (List ℕ)
scan_key [] = ok []
scan_key (c ∷ cs) =
    let rest = scan_key cs in
    if c == b'$'
    then err invalid_path
    else if c == b'.' || c == b'['
    then ok []
    else if c == b']'
    then err invalid_path
    else do key ← rest; ok (c ∷ key)

-- The loop of `parseQuotedKey` behind the quote: the key, the number of backslashes taken out of the
-- buffer, and what stands behind the closing quote. The character behind a backslash is passed over.
unfoldable pub scan_quoted : List ℕ → Option (List ℕ × ℕ × List ℕ)
scan_quoted [] = none
scan_quoted (c ∷ []) = if c == b'\'' then some ([], 0, []) else none
scan_quoted (c ∷ d ∷ ds) =
    let passed = scan_quoted ds in
    let next = scan_quoted (d ∷ ds) in
    if c == b'\\'
    then elim passed [ none ↦ none | some (key, n, rest) ↦ some (d ∷ key, suc n, rest) ]
    else if c == b'\''
    then some ([], 0, d ∷ ds)
    else elim next [ none ↦ none | some (key, n, rest) ↦ some (c ∷ key, n, rest) ]

-- The test on the character behind a quoted key.
unfoldable pub closes_well : List ℕ → Bool
closes_well [] = true
closes_well (c ∷ _) = not (c == b'$' || c == b']')

-- A key is not empty, and becomes a child; the buffer has `len` runes and the cursor moves to `end`.
unfoldable pub build_key : PathBuilder → List ℕ → ℕ → ℕ → Exec Parsed
unfolding child
build_key b [] len end = err invalid_path
build_key b (c ∷ cs) len end = do
  b' ← child b (encode_all (c ∷ cs))
  ok (record { builder = b'; length = len; cursor = end })

-- What follows the loop of `parseQuotedKey`, on a key that begins at `start`.
unfoldable pub close_quoted : PathBuilder → ℕ → ℕ → Option (List ℕ × ℕ × List ℕ) → Exec Parsed
unfolding closes_well build_key
close_quoted b len start none = err invalid_path
close_quoted b len start (some (key, removed, rest)) =
    if closes_well rest
    then build_key b key (len - removed) (start + length key + 1)
    else err invalid_path

-- `cursor` is at the opening quote.
unfoldable pub parse_quoted_key : PathBuilder → List ℕ → ℕ → Exec Parsed
unfolding scan_quoted close_quoted
parse_quoted_key b buf cursor =
    close_quoted b (length buf) (cursor + 1) (scan_quoted (drop (cursor + 1) buf))

unfoldable pub starts_quoted : List ℕ → Bool
starts_quoted [] = false
starts_quoted (c ∷ _) = c == b'\''

-- `cursor` is at the dot.
unfoldable pub parse_path_dot : PathBuilder → List ℕ → ℕ → Exec Parsed
unfolding parse_quoted_key scan_key starts_quoted build_key
parse_path_dot b buf cursor =
    if starts_quoted (drop (cursor + 1) buf)
    then parse_quoted_key b buf (cursor + 1)
    else scan_key (drop (cursor + 1) buf) >>= λ key.
        build_key b key (length buf) (cursor + 1 + length key)

-- The digits that a text begins with, and the text behind them.
unfoldable pub leading_digits : List ℕ → List ℕ
unfolding is_digit
leading_digits [] = []
leading_digits (c ∷ cs) = let rest = leading_digits cs in if is_digit c then c ∷ rest else []

unfoldable pub behind_digits : List ℕ → List ℕ
unfolding is_digit
behind_digits [] = []
behind_digits (c ∷ cs) = let rest = behind_digits cs in if is_digit c then rest else c ∷ cs

-- `strconv.ParseInt` refuses what is over the largest signed integer of 64 bits.
unfoldable pub build_index : PathBuilder → List ℕ → ℕ → ℕ → Exec Parsed
unfolding index
build_index b ds len end =
    if ltb 9223372036854775807 (value_from 0 ds)
    then err invalid_number
    else index b (value_from 0 ds) >>= λ b'.
        ok (record { builder = b'; length = len; cursor = end })

-- The digits, and what stands behind them: `buf[cursor]` panics at the end of the buffer.
unfoldable pub close_index : PathBuilder → List ℕ → List ℕ → ℕ → ℕ → Exec Parsed
unfolding build_index
close_index b [] rest len end = err invalid_path
close_index b (d ∷ ds) [] len end = panic
close_index b (d ∷ ds) (c ∷ _) len end =
    if not (c == b']') then err invalid_path else build_index b (d ∷ ds) len end

-- `cursor` is at the bracket.
unfoldable pub parse_path_index : PathBuilder → List ℕ → ℕ → Exec Parsed
unfolding leading_digits behind_digits close_index
parse_path_index b buf cursor =
    let s = drop (cursor + 1) buf in
    close_index b (leading_digits s) (behind_digits s) (length buf)
      (cursor + 1 + length (leading_digits s) + 1)

-- One round of the loop of `FromString` at the rune `c`. The buffers that the parsing functions
-- return are those of the round only: the next round reads `buf` again, at the new cursor.
unfoldable pub from_string_round : List ℕ → ℕ → Parsed → Exec Parsed
unfolding parse_path_dot parse_path_index
from_string_round buf c s =
    if c == b'$'
    then ok (record s { builder = root s.builder; cursor = s.cursor + 1 })
    else if c == b'.'
    then parse_path_dot s.builder buf s.cursor
    else if c == b'['
    then parse_path_index s.builder buf s.cursor
    else err invalid_path

-- The loop; a round moves the cursor, so the length of the buffer is fuel enough.
unfoldable pub from_string_loop : ℕ → List ℕ → Parsed → Exec PathBuilder
unfolding from_string_round
from_string_loop zero buf s = out_of_fuel
from_string_loop (suc fuel) buf s = elim (ltb s.cursor s.length) [
  | false ↦ ok s.builder
  | true ↦ elim (get_elem? buf s.cursor) [
    | none ↦ panic
    | some c ↦ from_string_round buf c s >>= from_string_loop fuel buf
  ]
]

-- `FromString`, on the runes of the text.
unfoldable pub from_runes : List ℕ → Exec PathBuilder
unfolding from_string_loop
from_runes buf =
    from_string_loop (length buf + 1) buf
      (record { builder = none; length = length buf; cursor = 0 })

unfoldable pub from_string : Bytes → Exec PathBuilder
unfolding from_runes
from_string s = from_runes (chars s)
