-- ===== src/YamlPath/Parser/RoundTrip/Steps.antt =====
-- One round of the loop reads one step, and the loop reads them all.
use nobl9_language_server.Base.{
  All-weaken, ℕ, suc, ◌+◌, ◌-◌, ◌<◌, ◌≤◌, ◌≡◌, ◌≢◌, ◌⊎◌, refl, ap, ◌∙◌, inl, inr, true, false, ◌||◌,
  some, List, [], ◌∷◌, ◌++◌, ◌==◌, ◌/◌, ltb, if_intro, All, ok, length, drop, arith,
}
use mathlib.Core.Path.{subst}
use nobl9_language_server.Text.{Bytes, has_prefix, contains}
use nobl9_language_server.Text.Decimal.{digits, itoa, itoa-All, value_from, value_from-itoa}
use nobl9_language_server.Text.Runes.Ascii.{IsAscii, encode_all_of_ascii}
use nobl9_language_server.YamlPath.{Step, selector, at_index, child, index, normalize_selector_name}
use nobl9_language_server.YamlPath.Parser.{
  Parsed, closes_well, build_key, close_quoted, parse_quoted_key, starts_quoted, parse_path_dot,
  build_index, close_index, parse_path_index,
}
use nobl9_language_server.YamlPath.Parser.RoundTrip.{
  IsPlain, IsQuotable, Follows, contains-none, scan_key-plain, scan_quoted-quotable,
  escape_quotes-quotable, leading_digits-append, behind_digits-append,
}

-- The keys and indexes that are read back: a key without quotes and backslashes, of characters of
-- ASCII, which has no `$`, `[` or `]` unless a dot or a star has it printed between quotes.
abbrev pub IsPrintable : Step → Type 0
IsPrintable (selector []) = ⊥
IsPrintable (selector (c ∷ cs)) =
    All IsPlain (c ∷ cs)
    ⊎ (All IsQuotable (c ∷ cs)
        × ((contains (b'.' ∷ []) (c ∷ cs) || contains (b'*' ∷ []) (c ∷ cs)) ≡ true))
IsPrintable (at_index i) = i ≤ 9223372036854775807

drop-suc : (pre : List ℕ) (c : ℕ) (s : List ℕ) → drop (length pre + 1) (pre ++ c ∷ s) ≡ s
drop-suc [] c s = refl
drop-suc (x ∷ pre) c s =
    let one_more : suc (length pre) + 1 ≡ suc (length pre + 1) = omega arith in
    ap (λ n. drop n (x ∷ (pre ++ c ∷ s))) one_more ∙ drop-suc pre c s

drop-two : (pre : List ℕ) (c d : ℕ) (s : List ℕ) → drop (length pre + 1 + 1) (pre ++ c ∷ d ∷ s) ≡ s
drop-two [] c d s = refl
drop-two (x ∷ pre) c d s =
    let one_more : suc (length pre) + 1 + 1 ≡ suc (length pre + 1 + 1) = omega arith in
    ap (λ n. drop n (x ∷ (pre ++ c ∷ d ∷ s))) one_more ∙ drop-two pre c d s

-- A key as it is printed.
pub normalize-plain :
    (c : ℕ) (cs : Bytes) → All IsPlain (c ∷ cs) → normalize_selector_name (c ∷ cs) ≡ c ∷ cs
unfolding normalize_selector_name has_prefix
normalize-plain c cs h =
    let unquoted : (b'\'' == c) ≡ false = ground arith in
    let dots =
      contains-none b'.' (c ∷ cs) (All-weaken IsPlain (λ x. x ≢ b'.') (λ x p. p.2) (c ∷ cs) h) in
    let stars =
      contains-none b'*' (c ∷ cs) (All-weaken IsPlain (λ x. x ≢ b'*') (λ x p. p.6) (c ∷ cs) h) in
    rw (unquoted, dots, stars) refl

pub normalize-quotable :
    (c : ℕ) (cs : Bytes)
    → All IsQuotable (c ∷ cs)
    → (contains (b'.' ∷ []) (c ∷ cs) || contains (b'*' ∷ []) (c ∷ cs)) ≡ true
    → normalize_selector_name (c ∷ cs) ≡ b'\'' ∷ ((c ∷ cs) ++ b'\'' ∷ [])
unfolding normalize_selector_name has_prefix
normalize-quotable c cs h special =
    let unquoted : (b'\'' == c) ≡ false = ground arith in
    rw (unquoted, special, escape_quotes-quotable (c ∷ cs) h) refl

closes_well-Follows : (tail : List ℕ) → Follows tail → closes_well tail ≡ true
unfolding closes_well
closes_well-Follows [] f = refl
closes_well-Follows (c ∷ tail) (inl dot) = rw dot refl
closes_well-Follows (c ∷ tail) (inr bracket) = rw bracket refl

-- What the builder is after a step.
abbrev pub built : List Step → Step → ℕ → ℕ → Parsed
built done s len cursor = record { builder = some (done ++ s ∷ []); length = len; cursor = cursor }

build_key-ascii :
    (done : List Step) (c : ℕ) (cs : Bytes) (len end : ℕ)
    → IsAscii (c ∷ cs)
    → build_key (some done) (c ∷ cs) len end ≡ ok (built done (selector (c ∷ cs)) len end)
unfolding build_key child
build_key-ascii done c cs len end low = rw (encode_all_of_ascii (c ∷ cs) low) refl

pub parse_dot-plain :
    (done : List Step) (pre : List ℕ) (c : ℕ) (cs tail : List ℕ)
    → All IsPlain (c ∷ cs)
    → Follows tail
    → parse_path_dot (some done) (pre ++ b'.' ∷ ((c ∷ cs) ++ tail)) (length pre)
      ≡ ok (
          built done
            (selector (c ∷ cs))
            (length (pre ++ b'.' ∷ ((c ∷ cs) ++ tail)))
            (length pre + 1 + length (c ∷ cs)))
unfolding parse_path_dot starts_quoted
parse_dot-plain done pre c cs tail plain f =
    let unquoted : (c == b'\'') ≡ false = ground arith in
    rw (drop-suc pre b'.' ((c ∷ cs) ++ tail), unquoted, scan_key-plain (c ∷ cs) tail plain f)
      (build_key-ascii done c cs _ _
        (All-weaken IsPlain (λ x. x < 128) (λ x p. p.0) (c ∷ cs) plain))

pub parse_dot-quotable :
    (done : List Step) (pre : List ℕ) (c : ℕ) (cs tail : List ℕ)
    → All IsQuotable (c ∷ cs)
    → Follows tail
    → parse_path_dot (some done) (pre ++ b'.' ∷ b'\'' ∷ ((c ∷ cs) ++ b'\'' ∷ tail)) (length pre)
      ≡ ok (
          built done
            (selector (c ∷ cs))
            (length (pre ++ b'.' ∷ b'\'' ∷ ((c ∷ cs) ++ b'\'' ∷ tail)))
            (length pre + 1 + 1 + length (c ∷ cs) + 1))
unfolding parse_path_dot starts_quoted parse_quoted_key close_quoted
parse_dot-quotable done pre c cs tail quotable f =
    let len = length (pre ++ b'.' ∷ b'\'' ∷ ((c ∷ cs) ++ b'\'' ∷ tail)) in
    let nothing_removed : len - 0 ≡ len = omega arith in
    rw
      (
        drop-suc pre b'.' (b'\'' ∷ ((c ∷ cs) ++ b'\'' ∷ tail)),
        drop-two pre b'.' b'\'' ((c ∷ cs) ++ b'\'' ∷ tail),
        scan_quoted-quotable (c ∷ cs) tail quotable,
        closes_well-Follows tail f,
      )
      (build_key-ascii done c cs _ _
          (All-weaken IsQuotable (λ x. x < 128) (λ x p. p.0) (c ∷ cs) quotable)
        ∙ ap (λ n. ok (built done (selector (c ∷ cs)) n (length pre + 1 + 1 + length (c ∷ cs) + 1)))
            nothing_removed)

close_index-digits :
    (done : List Step) (i : ℕ) (ds tail : List ℕ) (len end : ℕ)
    → ds ≢ []
    → value_from 0 ds ≡ i
    → i ≤ 9223372036854775807
    → close_index (some done) ds (b']' ∷ tail) len end ≡ ok (built done (at_index i) len end)
unfolding close_index build_index index
close_index-digits done i [] tail len end some_digit v small = absurd (some_digit refl)
close_index-digits done i (d ∷ ds) tail len end some_digit v small =
    let fits : ltb 9223372036854775807 i ≡ false = ground arith in rw (v, fits) refl

snoc-not_nil : (xs : List ℕ) (x : ℕ) → xs ++ x ∷ [] ≢ []
snoc-not_nil [] x = λ e. cc
snoc-not_nil (y ∷ xs) x = λ e. cc

digits-not_nil : (fuel n : ℕ) → digits (suc fuel) n ≢ []
unfolding digits
digits-not_nil fuel n =
    if_intro {A = List ℕ} (λ s. s ≢ []) (ltb n 10) (λ _ e. cc)
      (λ _. snoc-not_nil (digits fuel (n / 10)) _)

pub itoa-not_nil : (i : ℕ) → itoa i ≢ []
unfolding itoa
itoa-not_nil i =
    let one_more : suc i ≡ i + 1 = omega arith in
    subst (λ fuel. digits fuel i ≢ []) one_more (digits-not_nil i i)

pub parse_index-digits :
    (done : List Step) (pre : List ℕ) (i : ℕ) (tail : List ℕ)
    → i ≤ 9223372036854775807
    → parse_path_index (some done) (pre ++ b'[' ∷ (itoa i ++ b']' ∷ tail)) (length pre)
      ≡ ok (
          built done
            (at_index i)
            (length (pre ++ b'[' ∷ (itoa i ++ b']' ∷ tail)))
            (length pre + 1 + length (itoa i) + 1))
unfolding parse_path_index
parse_index-digits done pre i tail small =
    rw
      (
        drop-suc pre b'[' (itoa i ++ b']' ∷ tail),
        leading_digits-append (itoa i) tail (itoa-All i),
        behind_digits-append (itoa i) tail (itoa-All i),
      )
      (close_index-digits done i (itoa i) tail _ _ (itoa-not_nil i) (value_from-itoa i) small)
