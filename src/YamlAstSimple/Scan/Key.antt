-- ===== src/YamlAstSimple/Scan/Key.antt =====
-- Where `getColonIndex` finds the colon behind a key.
use nobl9_language_server.Base.{
  ℕ, ◌+◌, ◌<◌, ◌≤◌, ◌≡◌, ◌≢◌, ap, ◌∙◌, Bool, true, false, Option, none, some, List, [], ◌∷◌, ◌++◌,
  length, length-append, append_assoc, ◌⊎◌, inl, inr, All, arith,
}
use nobl9_language_server.Text.{Bytes}
use nobl9_language_server.Text.Runes.{runes, is_space}
use nobl9_language_server.Text.Runes.RoundTrip.{runes-cons}
use nobl9_language_server.YamlAstSimple.Scan.{
  Quoting, return, go_on, colon_round, colon_from, get_colon_index, unquoted,
}

-- A piece of a key: a byte outside of quotes, or a text in double or in single quotes.
pub data Piece : Type 0 where
  plain : ℕ → Piece
  double : Bytes → Piece
  single : Bytes → Piece

abbrev pub piece_text : Piece → Bytes
piece_text (plain c) = c ∷ []
piece_text (double s) = b'"' ∷ (s ++ (b'"' ∷ []))
piece_text (single s) = b'\'' ∷ (s ++ (b'\'' ∷ []))

abbrev pub key_text : List Piece → Bytes
key_text [] = []
key_text (p ∷ ps) = piece_text p ++ key_text ps

-- Outside of quotes a byte is printable, and no blank, colon or quote; within quotes it is any of
-- ASCII but the quote that ends them.
abbrev pub IsPiece : Piece → Type 0
IsPiece (plain c) = (33 ≤ c) × (c ≤ 126) × (c ≢ b'"') × (c ≢ b'\'') × (c ≢ b':')
IsPiece (double s) = All (λ c. (c < 128) × (c ≢ b'"')) s
IsPiece (single s) = All (λ c. (c < 128) × (c ≢ b'\'')) s

-- The key does not begin with a dash.
abbrev pub IsUndashed : Piece → Type 0
IsUndashed (plain c) = c ≢ b'-'
IsUndashed _ = Unit

abbrev outside : Bool → Quoting
outside k = record { key_started = k; single = false; double = false }

abbrev in_double : Quoting
in_double = record { key_started = true; single = false; double = true }

abbrev in_single : Quoting
in_single = record { key_started = true; single = true; double = false }

plain_round :
    (k : Bool) (i c : ℕ)
    → IsPiece (plain c)
    → (0 < i) ⊎ (c ≢ b'-')
    → colon_round (outside k) i c ≡ go_on (outside true)
unfolding colon_round is_space
plain_round true i c h (inl far) = ground arith
plain_round false i c h (inl far) = ground arith
plain_round true i c h (inr other) = ground arith
plain_round false i c h (inr other) = ground arith

double_round : (i c : ℕ) → c ≢ b'"' → colon_round in_double i c ≡ go_on in_double
unfolding colon_round is_space
double_round i c other = ground arith

single_round : (i c : ℕ) → c ≢ b'\'' → colon_round in_single i c ≡ go_on in_single
unfolding colon_round is_space
single_round i c other = ground arith

open_double : (k : Bool) (i : ℕ) → colon_round (outside k) i b'"' ≡ go_on in_double
unfolding colon_round is_space
open_double k i = ground arith

open_single : (k : Bool) (i : ℕ) → colon_round (outside k) i b'\'' ≡ go_on in_single
unfolding colon_round is_space
open_single k i = ground arith

close_double : (i : ℕ) → colon_round in_double i b'"' ≡ go_on (outside true)
unfolding colon_round is_space
close_double i = ground arith

close_single : (i : ℕ) → colon_round in_single i b'\'' ≡ go_on (outside true)
unfolding colon_round is_space
close_single i = ground arith

colon_ends : (i : ℕ) → colon_round (outside true) i b':' ≡ return (some i)
unfolding colon_round is_space
colon_ends i = ground arith

blank_ends : (i : ℕ) → colon_round (outside true) i b' ' ≡ return none
unfolding colon_round is_space
blank_ends i = ground arith

-- The loop over the bytes of a text.
abbrev scan : Quoting → ℕ → Bytes → Option ℕ
scan q i s = colon_from q i (runes s)

scan-go_on :
    (q q' : Quoting) (i b : ℕ) (s : Bytes)
    → b < 128
    → colon_round q i b ≡ go_on q'
    → scan q i (b ∷ s) ≡ scan q' (i + 1) s
unfolding colon_from
scan-go_on q q' i b s low e = rw (runes-cons b s low, colon_from, e)

scan-return :
    (q : Quoting) (i b : ℕ) (s : Bytes) {o : Option ℕ}
    → b < 128
    → colon_round q i b ≡ return o
    → scan q i (b ∷ s) ≡ o
unfolding colon_from
scan-return q i b s low e = rw (runes-cons b s low, colon_from, e)

-- The index alone differs.
scan_at : (q : Quoting) (s : Bytes) {i j : ℕ} → i ≡ j → scan q i s ≡ scan q j s
scan_at q s e = ap (λ n. scan q n s) e

scan-double :
    (i : ℕ) (s rest : Bytes)
    → IsPiece (double s)
    → scan in_double i (s ++ (b'"' ∷ rest)) ≡ scan (outside true) (i + length s + 1) rest
scan-double i [] rest h =
    scan-go_on in_double (outside true) i b'"' rest (omega arith) (close_double i)
    ∙ scan_at (outside true) rest (omega arith)
scan-double i (c ∷ s) rest ((low, other), h) =
    scan-go_on in_double in_double i c (s ++ (b'"' ∷ rest)) low (double_round i c other)
    ∙ scan-double (i + 1) s rest h
    ∙ scan_at (outside true) rest (omega arith)

scan-single :
    (i : ℕ) (s rest : Bytes)
    → IsPiece (single s)
    → scan in_single i (s ++ (b'\'' ∷ rest)) ≡ scan (outside true) (i + length s + 1) rest
scan-single i [] rest h =
    scan-go_on in_single (outside true) i b'\'' rest (omega arith) (close_single i)
    ∙ scan_at (outside true) rest (omega arith)
scan-single i (c ∷ s) rest ((low, other), h) =
    scan-go_on in_single in_single i c (s ++ (b'\'' ∷ rest)) low (single_round i c other)
    ∙ scan-single (i + 1) s rest h
    ∙ scan_at (outside true) rest (omega arith)

scan-piece :
    (k : Bool) (i : ℕ) (p : Piece) (rest : Bytes)
    → IsPiece p
    → (0 < i) ⊎ IsUndashed p
    → scan (outside k) i (piece_text p ++ rest)
      ≡ scan (outside true) (i + length (piece_text p)) rest
scan-piece k i (plain c) rest h first =
    scan-go_on (outside k) (outside true) i c rest (omega arith) (plain_round k i c h first)
scan-piece k i (double s) rest h _ =
    ap (λ t. scan (outside k) i (b'"' ∷ t)) (append_assoc s (b'"' ∷ []) rest)
    ∙ scan-go_on (outside k) in_double i b'"' (s ++ (b'"' ∷ rest)) (omega arith) (open_double k i)
    ∙ scan-double (i + 1) s rest h
    ∙ scan_at (outside true) rest (omega (arith, length-append s (b'"' ∷ [])))
scan-piece k i (single s) rest h _ =
    ap (λ t. scan (outside k) i (b'\'' ∷ t)) (append_assoc s (b'\'' ∷ []) rest)
    ∙ scan-go_on (outside k) in_single i b'\'' (s ++ (b'\'' ∷ rest)) (omega arith) (open_single k i)
    ∙ scan-single (i + 1) s rest h
    ∙ scan_at (outside true) rest (omega (arith, length-append s (b'\'' ∷ [])))

piece_text-positive : (p : Piece) → 0 < length (piece_text p)
piece_text-positive (plain c) = omega arith
piece_text-positive (double s) = omega arith
piece_text-positive (single s) = omega arith

scan-key :
    (i : ℕ) (ps : List Piece) (rest : Bytes)
    → All IsPiece ps
    → 0 < i
    → scan (outside true) i (key_text ps ++ rest)
      ≡ scan (outside true) (i + length (key_text ps)) rest
scan-key i [] rest h far = scan_at (outside true) rest (omega arith)
scan-key i (p ∷ ps) rest (h, hs) far =
    ap (scan (outside true) i) (append_assoc (piece_text p) (key_text ps) rest)
    ∙ scan-piece true i p (key_text ps ++ rest) h (inl far)
    ∙ scan-key (i + length (piece_text p)) ps rest hs (omega arith)
    ∙ scan_at (outside true) rest (omega (arith, length-append (piece_text p) (key_text ps)))

scan-first :
    (p : Piece) (ps : List Piece) (rest : Bytes)
    → All IsPiece (p ∷ ps)
    → IsUndashed p
    → scan unquoted 0 (key_text (p ∷ ps) ++ rest)
      ≡ scan (outside true) (length (key_text (p ∷ ps))) rest
scan-first p ps rest (h, hs) undashed =
    ap (scan unquoted 0) (append_assoc (piece_text p) (key_text ps) rest)
    ∙ scan-piece false 0 p (key_text ps ++ rest) h (inr undashed)
    ∙ scan_at (outside true) (key_text ps ++ rest) (omega arith)
    ∙ scan-key (length (piece_text p)) ps rest hs (piece_text-positive p)
    ∙ scan_at (outside true) rest (omega (arith, length-append (piece_text p) (key_text ps)))

-- On a line that begins with a key, of plain bytes, texts in double quotes and texts in single
-- quotes in any order, all of ASCII, that does not begin with a dash, `getColonIndex` finds the
-- colon right behind the key, whatever colons and blanks the quotes hold and whatever the line goes
-- on with, and it finds none where a blank is right behind the key.
pub get_colon_index-key_text :
    (p : Piece) (ps : List Piece) (rest : Bytes)
    → All IsPiece (p ∷ ps)
    → IsUndashed p
    → (get_colon_index (key_text (p ∷ ps) ++ (b':' ∷ rest)) ≡ some (length (key_text (p ∷ ps))))
      × (get_colon_index (key_text (p ∷ ps) ++ (b' ' ∷ rest)) ≡ none)
unfolding get_colon_index
get_colon_index-key_text p ps rest h undashed =
    let n = length (key_text (p ∷ ps)) in
    (
      scan-first p ps (b':' ∷ rest) h undashed
          ∙ scan-return (outside true) n b':' rest (omega arith) (colon_ends n),
      scan-first p ps (b' ' ∷ rest) h undashed
          ∙ scan-return (outside true) n b' ' rest (omega arith) (blank_ends n),
    )
