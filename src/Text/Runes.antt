-- ===== src/Text/Runes.antt =====
-- `for i, r := range s`: a string as runes, each with the bytes that it was decoded from, and the
-- functions of the standard library that go by runes.
pub mod RoundTrip
pub mod Ascii
use nobl9_language_server.Base.{
  ℕ, zero, suc, ◌+◌, ◌-◌, ◌*◌, ◌/◌, ◌%◌, map, Bool, ◌&&◌, ◌||◌, List, [], ◌∷◌, ◌++◌, reverse, ltb,
  leb, ◌==◌, if◌then◌else◌, take, length,
}

-- A byte that begins no valid sequence is decoded to U+FFFD, with a width of one.
pub record Rune : Type 0 where
  pub char : ℕ
  pub lead : ℕ
  pub more : List ℕ

abbrev pub width : Rune → ℕ
width r = suc (length r.more)

abbrev pub within : ℕ → ℕ → ℕ → Bool
within lo hi c = leb lo c && leb c hi

-- A byte that may continue a sequence.
abbrev is_cont : ℕ → Bool
is_cont = within 0x80 0xBF

-- What may follow the lead byte of three, and of four.
abbrev second_of_three : ℕ → ℕ → Bool
second_of_three b c =
    if b == 0xE0 then within 0xA0 0xBF c else if b == 0xED then within 0x80 0x9F c else is_cont c

abbrev second_of_four : ℕ → ℕ → Bool
second_of_four b c =
    if b == 0xF0 then within 0x90 0xBF c else if b == 0xF4 then within 0x80 0x8F c else is_cont c

abbrev invalid : ℕ × ℕ
invalid = (0xFFFD, 0)

decode_two : ℕ → List ℕ → ℕ × ℕ
decode_two b (c ∷ _) = if is_cont c then ((b - 0xC0) * 64 + (c - 0x80), 1) else invalid
decode_two b [] = invalid

decode_three : ℕ → List ℕ → ℕ × ℕ
decode_three b (c ∷ d ∷ _) =
    if second_of_three b c && is_cont d
    then ((b - 0xE0) * 4096 + (c - 0x80) * 64 + (d - 0x80), 2)
    else invalid
decode_three b _ = invalid

decode_four : ℕ → List ℕ → ℕ × ℕ
decode_four b (c ∷ d ∷ e ∷ _) =
    if second_of_four b c && is_cont d && is_cont e
    then ((b - 0xF0) * 262144 + (c - 0x80) * 4096 + (d - 0x80) * 64 + (e - 0x80), 3)
    else invalid
decode_four b _ = invalid

-- `utf8.DecodeRuneInString`: the rune, and how many bytes it takes behind the first.
decode : ℕ → List ℕ → ℕ × ℕ
unfolding decode_two decode_three decode_four
decode b bs =
    if ltb b 0x80
    then (b, 0)
    else if within 0xC2 0xDF b
    then decode_two b bs
    else if within 0xE0 0xEF b
    then decode_three b bs
    else if within 0xF0 0xF4 b
    then decode_four b bs
    else invalid

-- The first `skip` bytes belong to the rune before.
runes_from : ℕ → List ℕ → List Rune
unfolding decode
runes_from skip [] = []
runes_from (suc skip) (b ∷ bs) = runes_from skip bs
runes_from zero (b ∷ bs) =
    let (c, n) = decode b bs in record { char = c; lead = b; more = take n bs } ∷ runes_from n bs

unfoldable pub runes : List ℕ → List Rune
unfolding runes_from
runes = runes_from 0

unfoldable pub bytes_of : List Rune → List ℕ
bytes_of [] = []
bytes_of (r ∷ rs) = r.lead ∷ (r.more ++ bytes_of rs)

-- The white space beyond Latin-1.
unfoldable pub is_wide_space : ℕ → Bool
is_wide_space r =
    r == 0x1680
    || within 0x2000 0x200A r
    || r == 0x2028
    || r == 0x2029
    || r == 0x202F
    || r == 0x205F
    || r == 0x3000

-- `unicode.IsSpace`.
unfoldable pub is_space : ℕ → Bool
unfolding is_wide_space
is_space r = within 9 13 r || r == b' ' || r == 0x85 || r == 0xA0 || is_wide_space r

unfoldable pub drop_spaces : List Rune → List Rune
unfolding is_space
drop_spaces [] = []
drop_spaces (r ∷ rs) = let rest = drop_spaces rs in if is_space r.char then rest else r ∷ rs

-- `strings.TrimSpace`.
unfoldable pub trim_space : List ℕ → List ℕ
unfolding runes bytes_of drop_spaces
trim_space s = bytes_of (reverse (drop_spaces (reverse (drop_spaces (runes s)))))

-- `string(r)`, the bytes of a rune; what is no code point becomes U+FFFD.
unfoldable pub encode : ℕ → List ℕ
encode r =
    if ltb r 0x80
    then r ∷ []
    else if ltb r 0x800
    then (0xC0 + r / 64) ∷ (0x80 + r % 64) ∷ []
    else if within 0xD800 0xDFFF r || ltb 0x10FFFF r
    then 0xEF ∷ 0xBF ∷ 0xBD ∷ []
    else if ltb r 0x10000
    then (0xE0 + r / 4096) ∷ (0x80 + r / 64 % 64) ∷ (0x80 + r % 64) ∷ []
    else (0xF0 + r / 262144) ∷ (0x80 + r / 4096 % 64) ∷ (0x80 + r / 64 % 64) ∷ (0x80 + r % 64) ∷ []

-- `string(buf)` of a slice of runes.
unfoldable pub encode_all : List ℕ → List ℕ
unfolding encode
encode_all [] = []
encode_all (r ∷ rs) = encode r ++ encode_all rs

-- `[]rune(s)`.
unfoldable pub chars : List ℕ → List ℕ
unfolding runes
chars s = map (λ r. r.char) (runes s)
