-- ===== src/Text/Runes/Ascii.antt =====
-- On ASCII text runes and bytes are the same.
use nobl9_language_server.Base.{ℕ, ◌<◌, ◌≡◌, refl, ap, List, [], ◌∷◌, map, All, arith}
use nobl9_language_server.Text.Runes.{Rune, decode, runes_from, runes, chars, encode, encode_all}

abbrev pub IsAscii : List ℕ → Type 0
IsAscii = All (λ c. c < 128)

abbrev ascii_rune : ℕ → Rune
ascii_rune c = record { char = c; lead = c; more = [] }

decode_of_ascii : (b : ℕ) (bs : List ℕ) → b < 128 → decode b bs ≡ (b, 0)
unfolding decode
decode_of_ascii b bs h = ground arith

pub runes_of_ascii : (s : List ℕ) → IsAscii s → runes s ≡ map ascii_rune s
unfolding runes runes_from
runes_of_ascii [] h = refl
runes_of_ascii (c ∷ cs) (low, h) =
    rw (decode_of_ascii c cs low) (ap (◌∷◌ (ascii_rune c)) (runes_of_ascii cs h))

map_chars : (s : List ℕ) → map (λ (r : Rune). r.char) (map ascii_rune s) ≡ s
map_chars [] = refl
map_chars (c ∷ cs) = ap (◌∷◌ c) (map_chars cs)

pub chars_of_ascii : (s : List ℕ) → IsAscii s → chars s ≡ s
unfolding chars
chars_of_ascii s h = rw (runes_of_ascii s h) (map_chars s)

encode_of_ascii : (c : ℕ) → c < 128 → encode c ≡ c ∷ []
unfolding encode
encode_of_ascii c h = ground arith

pub encode_all_of_ascii : (s : List ℕ) → IsAscii s → encode_all s ≡ s
unfolding encode_all
encode_all_of_ascii [] h = refl
encode_all_of_ascii (c ∷ cs) (low, h) =
    rw (encode_of_ascii c low) (ap (◌∷◌ c) (encode_all_of_ascii cs h))
