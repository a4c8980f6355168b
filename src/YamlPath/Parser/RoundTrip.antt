-- ===== src/YamlPath/Parser/RoundTrip.antt =====
-- Parsing gives back the path that was printed.
pub mod Steps
pub mod Loop
use nobl9_language_server.Base.{
  ℕ, zero, suc, ◌+◌, ◌-◌, ◌<◌, ◌≤◌, ◌≡◌, ◌≢◌, ◌⊎◌, refl, sym, ap, ◌∙◌, inl, inr, Bool, true, false,
  ◌&&◌, ◌||◌, not, Option, none, some, List, [], ◌∷◌, ◌++◌, ◌==◌, if◌then◌else◌, All, Exec, ok,
  length, arith,
}
use nobl9_language_server.Text.{Bytes, equal, has_prefix, contains}
use nobl9_language_server.Text.Decimal.{is_digit}
use nobl9_language_server.YamlPath.{escape_quotes}
use nobl9_language_server.YamlPath.Parser.{
  scan_key, scan_quoted, closes_well, leading_digits, behind_digits,
}

-- A character of a key that is printed as it stands.
abbrev pub IsPlain : ℕ → Type 0
IsPlain c = (c < 128) × (c ≢ b'$') × (c ≢ b'.') × (c ≢ b'[') × (c ≢ b']') × (c ≢ b'\'') × (c ≢ b'*')

-- A character of a key that is printed between quotes.
abbrev pub IsQuotable : ℕ → Type 0
IsQuotable c = (c < 128) × (c ≢ b'\'') × (c ≢ b'\\')

-- What may stand behind a step: nothing, or the next one.
abbrev pub Follows : List ℕ → Type 0
Follows [] = Unit
Follows (c ∷ cs) = (c ≡ b'.') ⊎ (c ≡ b'[')

pub contains-none : (x : ℕ) (s : Bytes) → All (λ c. c ≢ x) s → contains (x ∷ []) s ≡ false
unfolding contains has_prefix equal
contains-none x [] h = refl
contains-none x (c ∷ s) (other, h) =
    let first : (x == c) ≡ false = ground arith in rw first (contains-none x s h)

pub scan_key-plain :
    (key tail : List ℕ) → All IsPlain key → Follows tail → scan_key (key ++ tail) ≡ ok key
unfolding scan_key
scan_key-plain [] [] h f = refl
scan_key-plain [] (c ∷ tail) h (inl dot) = rw dot refl
scan_key-plain [] (c ∷ tail) h (inr bracket) = rw bracket refl
scan_key-plain (c ∷ key) tail (plain, h) f =
    let rest = scan_key-plain key tail h f in rw rest (ground arith)

scan_quoted-step :
    (c d : ℕ) (ds key tail : List ℕ)
    → IsQuotable c
    → scan_quoted (d ∷ ds) ≡ some (key, 0, tail)
    → scan_quoted (c ∷ d ∷ ds) ≡ some (c ∷ key, 0, tail)
unfolding scan_quoted
scan_quoted-step c d ds key tail (low, no_quote, no_escape) h =
    let quote : (c == b'\'') ≡ false = ground arith in
    let escape : (c == b'\\') ≡ false = ground arith in rw (escape, quote, h) refl

pub scan_quoted-quotable :
    (key tail : List ℕ)
    → All IsQuotable key
    → scan_quoted (key ++ b'\'' ∷ tail) ≡ some (key, 0, tail)
unfolding scan_quoted
scan_quoted-quotable [] [] h = refl
scan_quoted-quotable [] (c ∷ tail) h = refl
scan_quoted-quotable (c ∷ []) tail (q, h) =
    scan_quoted-step c b'\'' tail [] tail q (scan_quoted-quotable [] tail tt)
scan_quoted-quotable (c ∷ d ∷ key) tail (q, h) =
    scan_quoted-step c d (key ++ b'\'' ∷ tail) (d ∷ key) tail q
      (scan_quoted-quotable (d ∷ key) tail h)

pub escape_quotes-quotable : (key : Bytes) → All IsQuotable key → escape_quotes key ≡ key
unfolding escape_quotes
escape_quotes-quotable [] h = refl
escape_quotes-quotable (c ∷ key) (q, h) = let rest = escape_quotes-quotable key h in ground arith

pub leading_digits-append :
    (ds tail : List ℕ) → All (λ c. is_digit c ≡ true) ds → leading_digits (ds ++ b']' ∷ tail) ≡ ds
unfolding leading_digits is_digit
leading_digits-append [] tail h = refl
leading_digits-append (d ∷ ds) tail (digit, h) =
    let rest = leading_digits-append ds tail h in ground arith

pub behind_digits-append :
    (ds tail : List ℕ)
    → All (λ c. is_digit c ≡ true) ds
    → behind_digits (ds ++ b']' ∷ tail) ≡ b']' ∷ tail
unfolding behind_digits is_digit
behind_digits-append [] tail h = refl
behind_digits-append (d ∷ ds) tail (digit, h) =
    let rest = behind_digits-append ds tail h in ground arith
