-- ===== src/YamlAstSimple/Panics.antt =====
-- On which texts `ParseFile` panics.
use mathlib.Core.Path.{subst}
use nobl9_language_server.Base.{
  ℕ, zero, suc, ◌+◌, ◌≤◌, ◌≡◌, ◌↔◌, refl, true, none, List, [], ◌∷◌, take, drop, length,
  length-drop, arith, Option-cases, Bool-cases, inl, inr, ◌⊎◌, Exec, ok, err, panic, out_of_fuel,
  ◌>>=◌,
}
use nobl9_language_server.Text.{Bytes, equal_iff, split}
use nobl9_language_server.Text.Runes.{runes, is_wide_space}
use nobl9_language_server.YamlAstSimple.Scan.{get_indent_level, is_ascii_space}
use nobl9_language_server.YamlAstSimple.Scan.Indent.{BeginsWide, get_indent_level-eq-none_iff}
use nobl9_language_server.YamlAstSimple.Lexer.{Block, no_block, is_separator, lex_line, lex_lines}
use nobl9_language_server.YamlAstSimple.Tiling.{span, span_bounds, parse_document-span}
use nobl9_language_server.YamlAstSimple.{parse_document, parse_docs, parse_file}

-- One of the lines begins with white space beyond Latin-1, behind any ASCII white space.
abbrev pub AnyWide : List Bytes → Type 0
AnyWide [] = ⊥
AnyWide (raw ∷ rest) = BeginsWide raw ⊎ AnyWide rest

separator_not_wide : (raw : Bytes) → is_separator raw ≡ true → ¬ BeginsWide raw
unfolding runes is_wide_space is_ascii_space
separator_not_wide raw s (r, seen, wide) =
    let same = (equal_iff raw (b'-' ∷ b'-' ∷ b'-' ∷ [])).0 s in
    dashes (subst BeginsWide same (r, seen, wide))
  where
    dashes : ¬ BeginsWide (b'-' ∷ b'-' ∷ b'-' ∷ [])
    dashes (r', seen', wide') = ground arith

lex_line-eq-none_iff : (b : Block) (raw : Bytes) → (lex_line b raw ≡ none) ↔ BeginsWide raw
unfolding lex_line
lex_line-eq-none_iff b raw = (λ h. (get_indent_level-eq-none_iff raw).0 (to h), from)
  where
    to : lex_line b raw ≡ none → get_indent_level raw ≡ none
    to h = ground arith

    from : BeginsWide raw → lex_line b raw ≡ none
    from h = rw ((get_indent_level-eq-none_iff raw).1 h, lex_line)

AnyWide-take :
    (k : ℕ) (raws : List Bytes) → AnyWide raws → AnyWide (take k raws) ⊎ AnyWide (drop k raws)
AnyWide-take zero raws h = inr h
AnyWide-take (suc k) [] h = inl h
AnyWide-take (suc k) (raw ∷ rest) (inl here) = inl (inl here)
AnyWide-take (suc k) (raw ∷ rest) (inr later) = elim (AnyWide-take k rest later) [
  | inl a ↦ inl (inr a)
  | inr a ↦ inr a
]

take-AnyWide : (k : ℕ) (raws : List Bytes) → AnyWide (take k raws) → AnyWide raws
take-AnyWide zero raws h = absurd h
take-AnyWide (suc k) [] h = h
take-AnyWide (suc k) (raw ∷ rest) (inl here) = inl here
take-AnyWide (suc k) (raw ∷ rest) (inr later) = inr (take-AnyWide k rest later)

drop-AnyWide : (k : ℕ) (raws : List Bytes) → AnyWide (drop k raws) → AnyWide raws
drop-AnyWide zero raws h = h
drop-AnyWide (suc k) [] h = h
drop-AnyWide (suc k) (raw ∷ rest) h = inr (drop-AnyWide k rest h)

lex_lines-AnyWide :
    (b : Block) (raws : List Bytes) → lex_lines b raws ≡ none → AnyWide (take (span raws) raws)
unfolding lex_lines
lex_lines-AnyWide b [] h = cc
lex_lines-AnyWide b (raw ∷ rest) h = elim (Bool-cases (is_separator raw)) [
  | inl last ↦ absurd (cc (rw (last, lex_lines) at h))
  | inr inside ↦ rw inside (elim (Option-cases (lex_line b raw)) [
    | inl e ↦ inl ((lex_line-eq-none_iff b raw).0 e)
    | inr ((l, b'), e) ↦ elim (Option-cases (lex_lines b' rest)) [
      | inl e' ↦ inr (lex_lines-AnyWide b' rest e')
      | inr (ls, e') ↦ absurd (cc (rw (inside, e, e', lex_lines) at h))
    ]
  ])
]

AnyWide-lex_lines :
    (b : Block) (raws : List Bytes) → AnyWide (take (span raws) raws) → lex_lines b raws ≡ none
unfolding lex_lines
AnyWide-lex_lines b [] h = absurd h
AnyWide-lex_lines b (raw ∷ rest) h = elim (Bool-cases (is_separator raw)) [
  | inl last ↦ absurd (only_separator last (rw last at h))
  | inr inside ↦ elim (Option-cases (lex_line b raw)) [
    | inl e ↦ rw (inside, e, lex_lines)
    | inr ((l, b'), e) ↦ elim (rw inside at h) [
      | inl here ↦ absurd (cc ((lex_line-eq-none_iff b raw).1 here))
      | inr later ↦ rw (inside, e, AnyWide-lex_lines b' rest later, lex_lines)
    ]
  ]
]
  where
    only_separator : is_separator raw ≡ true → AnyWide (raw ∷ []) → ⊥
    only_separator s (inl w) = separator_not_wide raw s w
    only_separator s (inr w) = w

parse_document-eq-none_iff :
    (raws : List Bytes) → (parse_document raws ≡ none) ↔ AnyWide (take (span raws) raws)
unfolding parse_document
parse_document-eq-none_iff raws = (λ h. lex_lines-AnyWide no_block raws (to h), from)
  where
    to : parse_document raws ≡ none → lex_lines no_block raws ≡ none
    to h = ground arith

    from : AnyWide (take (span raws) raws) → parse_document raws ≡ none
    from h = rw (AnyWide-lex_lines no_block raws h, parse_document)

bind-eq-panic {ℓ κ} :
    {A : Type ℓ} {B : Type κ} (m : Exec A) (f : A → B) → (m >>= λ a. ok (f a)) ≡ panic → m ≡ panic
bind-eq-panic (ok a) f h = cc
bind-eq-panic (err e) f h = cc
bind-eq-panic panic f h = refl
bind-eq-panic out_of_fuel f h = cc

parse_docs-AnyWide :
    (fuel i : ℕ) (raws : List Bytes) → parse_docs fuel i raws ≡ panic → AnyWide raws
unfolding parse_docs
parse_docs-AnyWide fuel i [] h = cc
parse_docs-AnyWide zero i (l ∷ ls) h = cc
parse_docs-AnyWide (suc fuel) i (l ∷ ls) h = elim (Option-cases (parse_document (l ∷ ls))) [
  | inl e ↦ take-AnyWide (span (l ∷ ls)) (l ∷ ls) ((parse_document-eq-none_iff (l ∷ ls)).0 e)
  | inr (doc, e) ↦ drop-AnyWide (length doc.lines) (l ∷ ls) (
      parse_docs-AnyWide fuel (i + length doc.lines) (drop (length doc.lines) (l ∷ ls))
        (bind-eq-panic _ (λ docs. record doc { offset = i } ∷ docs) (rw (e, parse_docs) at h)))
]

AnyWide-parse_docs :
    (fuel i : ℕ) (raws : List Bytes)
    → length raws ≤ fuel
    → AnyWide raws
    → parse_docs fuel i raws ≡ panic
unfolding parse_docs
AnyWide-parse_docs fuel i [] le h = absurd h
AnyWide-parse_docs zero i (l ∷ ls) le h = absurd (omega arith)
AnyWide-parse_docs (suc fuel) i (l ∷ ls) le h = elim (Option-cases (parse_document (l ∷ ls))) [
  | inl e ↦ rw (e, parse_docs)
  | inr (doc, e) ↦
      let len : length doc.lines ≡ span (l ∷ ls) = parse_document-span (l ∷ ls) e in
      let pos = span_bounds (l ∷ ls) (λ q. cc) in
      elim (AnyWide-take (span (l ∷ ls)) (l ∷ ls) h) [
        | inl now ↦ absurd (cc ((parse_document-eq-none_iff (l ∷ ls)).1 now))
        | inr later ↦ rw (
          e,
          len,
          AnyWide-parse_docs fuel (i + span (l ∷ ls)) (drop (span (l ∷ ls)) (l ∷ ls))
              (omega (arith, length-drop (span (l ∷ ls)) (l ∷ ls))) later,
          parse_docs,
        )
      ]
]

-- `ParseFile` panics exactly on the texts of which some line begins, behind any ASCII white space,
-- with white space beyond Latin-1.
pub parse_file-eq-panic_iff :
    (content : Bytes) → (parse_file content ≡ panic) ↔ AnyWide (split b'\n' content)
unfolding parse_file
parse_file-eq-panic_iff content = (
  parse_docs-AnyWide (length (split b'\n' content)) 0 (split b'\n' content),
  AnyWide-parse_docs (length (split b'\n' content)) 0 (split b'\n' content) (omega arith),
)
