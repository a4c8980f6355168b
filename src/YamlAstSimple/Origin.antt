-- ===== src/YamlAstSimple/Origin.antt =====
-- Which line of the text each line of the documents is made from.
use nobl9_language_server.Base.{
  ℕ, zero, suc, ◌+◌, ◌≡◌, refl, sym, ap, ◌∙◌, true, ◌||◌, Option, none, some, List, [], ◌∷◌, ◌++◌,
  map, length, get_elem?, drop, ltb, ◌⊎◌, inl, inr, Exec, ok, err, panic, out_of_fuel, ◌>>=◌,
  Option-cases, Bool-cases, if_intro,
}
use mathlib.Core.Path.{subst}
use nobl9_language_server.Text.{Bytes, split, last_index}
use nobl9_language_server.YamlAstSimple.Lines.{
  Line, Document, is_type, comment, list, doc_separator,
}
use nobl9_language_server.YamlAstSimple.Lexer.{
  Block, no_block, is_separator, separator_line, lex_line, lex_lines, parse_document_lines,
}
use nobl9_language_server.YamlAstSimple.Paths.{
  find_previous_line, list_path, key_path, strip_dot, process_line, process_from, with_general,
  post_process_paths,
}
use nobl9_language_server.YamlAstSimple.{parse_document, parse_docs, parse_file}

-- The same but for the paths and the list index.
abbrev pub SameText : Line → Line → Type 0
SameText l m =
    (l.line_type ≡ m.line_type) × (l.value ≡ m.value) × (l.indent ≡ m.indent) × (l.colon ≡ m.colon)

-- What a round of the loop over the lines makes.
abbrev pub IsLexed : Bytes → Line → Type 0
IsLexed raw l =
    ((is_separator raw ≡ true) × (l ≡ separator_line raw))
    ⊎ ((b : Block) × (b' : Block) × (lex_line b raw ≡ some (l, b')))

abbrev pub IsMadeFrom : Bytes → Line → Type 0
IsMadeFrom raw l = (lexed : Line) × IsLexed raw lexed × SameText l lexed

-- The lines are made from the first ones of `raws`, one from each, and `rest` is left.
abbrev pub AreMade : List Line → List Bytes → List Bytes → Type 0
AreMade [] raws rest = raws ≡ rest
AreMade (l ∷ ls) (raw ∷ raws) rest = IsMadeFrom raw l × AreMade ls raws rest
AreMade (l ∷ ls) [] rest = ⊥

pub AreMade-append :
    (ls ms : List Line) (raws mid rest : List Bytes)
    → AreMade ls raws mid
    → AreMade ms mid rest
    → AreMade (ls ++ ms) raws rest
AreMade-append [] ms raws mid rest e k = subst (λ r. AreMade ms r rest) (sym e) k
AreMade-append (l ∷ ls) ms (raw ∷ raws) mid rest (h, hs) k =
    (h, AreMade-append ls ms raws mid rest hs k)
AreMade-append (l ∷ ls) ms [] mid rest h k = elim h [ ]

-- A number names a line of the documents exactly where it names one of the text.
abbrev pub IsAt : Option Bytes → Option Line → Type 0
IsAt none none = Unit
IsAt (some raw) (some l) = IsMadeFrom raw l
IsAt _ _ = ⊥

pub get_elem?-IsAt :
    (ls : List Line) (raws : List Bytes) (n : ℕ)
    → AreMade ls raws []
    → IsAt (get_elem? raws n) (get_elem? ls n)
get_elem?-IsAt [] raws n e = subst (λ (rs : List Bytes). IsAt (get_elem? rs n) none) (sym e) tt
get_elem?-IsAt (l ∷ ls) [] n h = elim h [ ]
get_elem?-IsAt (l ∷ ls) (raw ∷ raws) zero h = h.0
get_elem?-IsAt (l ∷ ls) (raw ∷ raws) (suc n) h = get_elem?-IsAt ls raws n h.1

SameText-refl : (l : Line) → SameText l l
SameText-refl l = (refl, refl, refl, refl)

list_path-SameText : (prev : Option Line) (l : Line) → SameText (list_path prev l) l
unfolding list_path
list_path-SameText none l = SameText-refl l
list_path-SameText (some prev) l =
    if_intro {A = Line} (λ m. SameText m l) (ltb prev.indent l.indent) (λ _. SameText-refl l)
      (λ _. elim (Option-cases (last_index b'[' prev.path)) [
        | inl e ↦ rw (e, list_path) (SameText-refl l)
        | inr (i, e) ↦ rw (e, list_path) (SameText-refl l)
      ])

key_path-SameText : (prev : Option Line) (l : Line) → SameText (key_path prev l) l
unfolding key_path
key_path-SameText none l = SameText-refl l
key_path-SameText (some prev) l =
    if_intro {A = Line} (λ m. SameText m l) (ltb prev.indent l.indent) (λ _. SameText-refl l)
      (λ _. elim (Option-cases (last_index b'.' prev.path)) [
        | inl e ↦ rw (e, key_path) (SameText-refl l)
        | inr (i, e) ↦ rw (e, key_path) (SameText-refl l)
      ])

process_line-SameText : (before : List Line) (l : Line) → SameText (process_line before l) l
unfolding process_line
process_line-SameText before l =
    let prev = find_previous_line before l.indent in
    if_intro {A = Line} (λ m. SameText m l) (is_type l doc_separator || is_type l comment)
      (λ _. SameText-refl l)
      (λ _.
        if_intro {A = Line} (λ m. SameText (record m { path = strip_dot m.path }) l)
          (is_type l list) (λ _. list_path-SameText prev l) (λ _. key_path-SameText prev l))

processed-IsMadeFrom :
    (raw : Bytes) (before : List Line) (l : Line)
    → IsMadeFrom raw l
    → IsMadeFrom raw (with_general (process_line before l))
processed-IsMadeFrom raw before l (lexed, is, (t, v, i, c)) =
    let (t', v', i', c') = process_line-SameText before l in
    (lexed, is, (t' ∙ t, v' ∙ v, i' ∙ i, c' ∙ c))

process_from-AreMade :
    (before ls : List Line) (raws rest : List Bytes)
    → AreMade ls raws rest
    → AreMade (map with_general (process_from before ls)) raws rest
unfolding process_from
process_from-AreMade before [] raws rest h = h
process_from-AreMade before (l ∷ ls) [] rest h = h
process_from-AreMade before (l ∷ ls) (raw ∷ raws) rest (h, hs) = (
  processed-IsMadeFrom raw before l h,
  process_from-AreMade (process_line before l ∷ before) ls raws rest hs,
)

-- The lines of a document, if it was made, begin with those of `raws`.
abbrev Begins : List Bytes → Option (List Line) → Type 0
Begins raws none = Unit
Begins raws (some ls) = AreMade ls raws (drop (length ls) raws)

Begins-cons :
    (raw : Bytes) (l : Line) (raws : List Bytes) (o : Option (List Line))
    → IsMadeFrom raw l
    → Begins raws o
    → Begins (raw ∷ raws) (elim o [ none ↦ none | some ls ↦ some (l ∷ ls) ])
Begins-cons raw l raws none h hs = tt
Begins-cons raw l raws (some ls) h hs = (h, hs)

lex_lines-Begins : (b : Block) (raws : List Bytes) → Begins raws (lex_lines b raws)
unfolding lex_lines
lex_lines-Begins b [] = refl
lex_lines-Begins b (raw ∷ rest) = elim (Bool-cases (is_separator raw)) [
  | inl last ↦
      rw (last, lex_lines)
        ((separator_line raw, inl (last, refl), SameText-refl (separator_line raw)), refl)
  | inr inside ↦ elim (Option-cases (lex_line b raw)) [
    | inl e ↦ rw (inside, e, lex_lines) tt
    | inr ((l, b'), e) ↦
        rw (inside, e, lex_lines)
          (Begins-cons raw l rest (lex_lines b' rest) (l, inr (b, b', e), SameText-refl l)
            (lex_lines-Begins b' rest))
  ]
]

-- As `Begins`, of a document.
abbrev Starts : List Bytes → Option Document → Type 0
Starts raws none = Unit
Starts raws (some d) = AreMade d.lines raws (drop (length d.lines) raws)

length-processed :
    (before ls : List Line) → length (map with_general (process_from before ls)) ≡ length ls
unfolding process_from
length-processed before [] = refl
length-processed before (l ∷ ls) = ap suc (length-processed (process_line before l ∷ before) ls)

processed-Starts :
    (raws : List Bytes) (o : Option (List Line))
    → Begins raws o
    → Starts raws (elim o [
      | none ↦ none
      | some parsed ↦ some (record { offset = 0; lines = post_process_paths parsed })
    ])
unfolding post_process_paths
processed-Starts raws none h = tt
processed-Starts raws (some ls) h =
    subst (λ n. AreMade (post_process_paths ls) raws (drop n raws)) (sym (length-processed [] ls))
      (process_from-AreMade [] ls raws (drop (length ls) raws) h)

parse_document-Starts : (raws : List Bytes) → Starts raws (parse_document raws)
unfolding parse_document parse_document_lines
parse_document-Starts raws =
    processed-Starts raws (lex_lines no_block raws) (lex_lines-Begins no_block raws)

-- The lines of all the documents.
abbrev pub all_lines : List Document → List Line
all_lines [] = []
all_lines (d ∷ ds) = d.lines ++ all_lines ds

-- Where documents are made, they take the lines `raws`.
abbrev pub Takes : List Bytes → Exec (List Document) → Type 0
Takes raws (ok docs) = AreMade (all_lines docs) raws []
Takes raws _ = Unit

Takes-cons :
    (i : ℕ) (d : Document) (raws : List Bytes) (r : Exec (List Document))
    → AreMade d.lines raws (drop (length d.lines) raws)
    → Takes (drop (length d.lines) raws) r
    → Takes raws (r >>= λ docs. ok (record d { offset = i } ∷ docs))
Takes-cons i d raws (ok docs) h hs =
    AreMade-append d.lines (all_lines docs) raws (drop (length d.lines) raws) [] h hs
Takes-cons i d raws panic h hs = tt
Takes-cons i d raws (err e) h hs = tt
Takes-cons i d raws out_of_fuel h hs = tt

parse_docs-Takes : (fuel i : ℕ) (raws : List Bytes) → Takes raws (parse_docs fuel i raws)
unfolding parse_docs
parse_docs-Takes fuel i [] = refl
parse_docs-Takes zero i (l ∷ ls) = tt
parse_docs-Takes (suc fuel) i (l ∷ ls) = elim (Option-cases (parse_document (l ∷ ls))) [
  | inl e ↦ rw (e, parse_docs) tt
  | inr (d, e) ↦
      let made : AreMade d.lines (l ∷ ls) (drop (length d.lines) (l ∷ ls)) =
        subst (λ o. Starts (l ∷ ls) o) e (parse_document-Starts (l ∷ ls)) in
      rw (e, parse_docs)
        (Takes-cons i d (l ∷ ls)
          (parse_docs fuel (i + length d.lines) (drop (length d.lines) (l ∷ ls))) made
          (parse_docs-Takes fuel (i + length d.lines) (drop (length d.lines) (l ∷ ls))))
]

-- The lines of the documents of a text are made from the lines of the text, one from each.
pub parse_file-Takes : (content : Bytes) → Takes (split b'\n' content) (parse_file content)
unfolding parse_file
parse_file-Takes content = parse_docs-Takes (length (split b'\n' content)) 0 (split b'\n' content)
