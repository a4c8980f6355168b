-- ===== src/YamlAstSimple/Tiling.antt =====
-- The documents of a file cover its lines, in order and without a gap, and the loop of `ParseFile`
-- ends.
use nobl9_language_server.Base.{
  ℕ, zero, suc, ◌+◌, ◌<◌, ◌≤◌, ◌≡◌, ◌≢◌, refl, ap, ◌∙◌, some, List, [], ◌∷◌, map, length, drop,
  length-drop, Exec, ok, err, panic, out_of_fuel, ◌>>=◌, arith, Option-cases, Bool-cases, inl, inr,
  if◌then◌else◌,
}
use nobl9_language_server.Text.{Bytes, split}
use nobl9_language_server.YamlAstSimple.Lines.{Line, Document}
use nobl9_language_server.YamlAstSimple.Lexer.{Block, no_block, is_separator, lex_line, lex_lines}
use nobl9_language_server.YamlAstSimple.Paths.{
  with_general, process_line, process_from, post_process_paths,
}
use nobl9_language_server.YamlAstSimple.{parse_document, parse_docs, parse_file}

-- How many lines the first document takes: those up to the first separator, and that one.
abbrev pub span : List Bytes → ℕ
span [] = 0
span (raw ∷ rest) = if is_separator raw then 1 else suc (span rest)

-- The documents from line `i` on divide the lines `raws` after each separator.
abbrev pub Tiles : ℕ → List Document → List Bytes → Type 0
Tiles i [] raws = raws ≡ []
Tiles i (d ∷ ds) raws =
    (d.offset ≡ i)
    × (length d.lines ≡ span raws)
    × (raws ≢ [])
    × Tiles (i + span raws) ds (drop (span raws) raws)

pub span_bounds : (raws : List Bytes) → raws ≢ [] → (0 < span raws) × (span raws ≤ length raws)
span_bounds [] h = absurd (h refl)
span_bounds (raw ∷ []) h = ground arith
span_bounds (raw ∷ next ∷ rest) h = ground (arith, span_bounds (next ∷ rest) (λ e. cc))

length-map {ℓ κ} :
    {A : Type ℓ} {B : Type κ} (f : A → B) (xs : List A) → length (map f xs) ≡ length xs
length-map f [] = refl
length-map f (x ∷ xs) = omega (arith, length-map f xs)

length-process_from : (before ls : List Line) → length (process_from before ls) ≡ length ls
unfolding process_from
length-process_from before [] = refl
length-process_from before (l ∷ ls) =
    ap suc (length-process_from (process_line before l ∷ before) ls)

length-post_process_paths : (ls : List Line) → length (post_process_paths ls) ≡ length ls
unfolding post_process_paths
length-post_process_paths ls =
    length-map with_general (process_from [] ls) ∙ length-process_from [] ls

length-lex_lines :
    (b : Block) (raws : List Bytes) {ls : List Line}
    → lex_lines b raws ≡ some ls
    → length ls ≡ span raws
unfolding lex_lines
length-lex_lines b [] h = ground arith
length-lex_lines b (raw ∷ rest) {ls} h = elim (Bool-cases (is_separator raw)) [
  | inl last ↦ ground arith
  | inr inside ↦ elim (Option-cases (lex_line b raw)) [
    | inl e ↦ ground arith
    | inr ((line, b'), e) ↦ elim (Option-cases (lex_lines b' rest)) [
      | inl e' ↦ ground arith
      | inr (ls', e') ↦ ground (arith, length-lex_lines b' rest {ls = ls'} e')
    ]
  ]
]

pub parse_document-span :
    (raws : List Bytes) {d : Document} → parse_document raws ≡ some d → length d.lines ≡ span raws
unfolding parse_document
parse_document-span raws h = elim (Option-cases (lex_lines no_block raws)) [
  | inl e ↦ ground arith
  | inr (ls, e) ↦ ground (arith, length-post_process_paths ls, length-lex_lines no_block raws e)
]

-- What `ParseFile` may end in: documents that divide the lines, or a panic.
abbrev pub Covers : ℕ → List Bytes → Exec (List Document) → Type 0
Covers i raws (ok docs) = Tiles i docs raws
Covers i raws panic = Unit
Covers i raws _ = ⊥

Covers-cons :
    (i : ℕ) (d : Document) (raws : List Bytes) (r : Exec (List Document))
    → length d.lines ≡ span raws
    → raws ≢ []
    → Covers (i + span raws) (drop (span raws) raws) r
    → Covers i raws (r >>= λ docs. ok (record d { offset = i } ∷ docs))
Covers-cons i d raws (ok docs) len ne h = (refl, len, ne, h)
Covers-cons i d raws panic len ne h = tt
Covers-cons i d raws (err e) len ne h = h
Covers-cons i d raws out_of_fuel len ne h = h

parse_docs-Covers :
    (fuel i : ℕ) (raws : List Bytes) → length raws ≤ fuel → Covers i raws (parse_docs fuel i raws)
unfolding parse_docs
parse_docs-Covers fuel i [] h = refl
parse_docs-Covers zero i (l ∷ ls) h = absurd (omega arith)
parse_docs-Covers (suc fuel) i (l ∷ ls) h = elim (Option-cases (parse_document (l ∷ ls))) [
  | inl e ↦ rw (e, parse_docs) tt
  | inr (doc, e) ↦
      let len : length doc.lines ≡ span (l ∷ ls) = parse_document-span (l ∷ ls) e in
      let ne : (l ∷ ls) ≢ [] = λ q. cc in
      let rest =
        parse_docs-Covers fuel (i + span (l ∷ ls)) (drop (span (l ∷ ls)) (l ∷ ls))
          (omega (arith, span_bounds (l ∷ ls) ne, length-drop (span (l ∷ ls)) (l ∷ ls))) in
      rw (e, parse_docs) (rw len (Covers-cons i doc (l ∷ ls) _ len ne rest))
]

-- `ParseFile` ends on every text, within as many rounds as the text has lines. Unless it panics,
-- its documents divide the lines of the text: each begins where the one before it ended, and takes
-- the lines up to and with the next separator.
pub parse_file-Covers : (content : Bytes) → Covers 0 (split b'\n' content) (parse_file content)
unfolding parse_file
parse_file-Covers content =
    parse_docs-Covers (length (split b'\n' content)) 0 (split b'\n' content) (omega arith)
