-- ===== src/Files/Simple/Splitting.antt =====
-- `splitListDocument` divides the lines of a document.
use nobl9_language_server.Base.{
  ℕ, ◌+◌, ◌≡◌, refl, ap, ◌||◌, List, [], ◌∷◌, ◌++◌, append_assoc, Exec, ok, err, panic, out_of_fuel,
  ◌>>=◌, if_intro, ltb, length,
}
use mathlib.Core.Path.{subst}
use nobl9_language_server.Text.{Bytes, equal}
use nobl9_language_server.YamlAstSimple.Lines.{Line, Document}
use nobl9_language_server.YamlAstSimple.Origin.{all_lines}
use nobl9_language_server.Files.Simple.{
  append_line, next_document, split_at_prefix, split_lines, split_list_document, list_prefix,
  is_blank,
}

-- Each document begins where the one before it ended, the first one at `start`.
abbrev pub AreAdjacent : ℕ → List Document → Type 0
AreAdjacent start [] = Unit
AreAdjacent start (d ∷ ds) = (d.offset ≡ start) × AreAdjacent (start + length d.lines) ds

-- The documents have the lines between them; where there are none, a line has no list prefix.
abbrev pub Divides : ℕ → List Line → Exec (List Document) → Type 0
Divides start ls (ok docs) = (all_lines docs ≡ ls) × AreAdjacent start docs
Divides start ls (err e) = (l : Line) × (list_prefix l.path ≡ err e)
Divides start ls panic = (l : Line) × (list_prefix l.path ≡ panic)
Divides start ls out_of_fuel = (l : Line) × (list_prefix l.path ≡ out_of_fuel)

cons-Divides :
    (current : Document) (ls : List Line) (r : Exec (List Document))
    → Divides (current.offset + length current.lines) ls r
    → Divides current.offset (current.lines ++ ls) (r >>= λ docs. ok (current ∷ docs))
cons-Divides current ls (ok docs) (lines, adjacent) =
    (ap (λ ms. current.lines ++ ms) lines, (refl, adjacent))
cons-Divides current ls (err e) h = h
cons-Divides current ls panic h = h
cons-Divides current ls out_of_fuel h = h

-- The choice between the current document and a new one, at a line with this prefix.
prefixed-Divides :
    (prefix : Bytes) (current : Document) (l : Line) (ls : List Line) (r : Exec Bytes)
    → list_prefix l.path ≡ r
    → ((q : Bytes)
        → Divides current.offset
            (current.lines ++ l ∷ ls)
            (split_lines q (append_line current l) ls))
    → ((q : Bytes)
        → Divides
            (current.offset + length current.lines)
            (l ∷ ls)
            (split_lines q (next_document current l) ls))
    → Divides current.offset
        (current.lines ++ l ∷ ls)
        (split_at_prefix (λ q d. split_lines q d ls) prefix current l r)
unfolding split_at_prefix
prefixed-Divides prefix current l ls (ok q) e same new =
    if_intro {A = Exec (List Document)} (λ r. Divides current.offset (current.lines ++ l ∷ ls) r)
      (is_blank prefix || equal prefix q) (λ _. same q)
      (λ _. cons-Divides current (l ∷ ls) (split_lines q (next_document current l) ls) (new q))
prefixed-Divides prefix current l ls (err x) e same new = (l, e)
prefixed-Divides prefix current l ls panic e same new = (l, e)
prefixed-Divides prefix current l ls out_of_fuel e same new = (l, e)

split_lines-Divides :
    (prefix : Bytes) (current : Document) (ls : List Line)
    → Divides current.offset (current.lines ++ ls) (split_lines prefix current ls)
unfolding split_lines
split_lines-Divides prefix current [] = (refl, (refl, tt))
split_lines-Divides prefix current (l ∷ ls) =
    let same : (q : Bytes)
        → Divides current.offset (current.lines ++ l ∷ ls)
            (split_lines q (append_line current l) ls) =
      λ q.
        subst (λ ms. Divides current.offset ms (split_lines q (append_line current l) ls))
          (append_assoc current.lines (l ∷ []) ls)
          (split_lines-Divides q (append_line current l) ls) in
    if_intro {A = Exec (List Document)} (λ r. Divides current.offset (current.lines ++ l ∷ ls) r)
      (ltb (length l.path) 4) (λ _. same prefix)
      (λ _.
        prefixed-Divides prefix current l ls (list_prefix l.path) refl same
          (λ q. split_lines-Divides q (next_document current l) ls))

-- `splitListDocument` divides the lines of a document: its documents have them in their order, and
-- each begins where the one before it ended. It ends, and fails only as the list prefix of a line.
pub split_list_document-Divides :
    (doc : Document) → Divides doc.offset doc.lines (split_list_document doc)
unfolding split_list_document
split_list_document-Divides doc =
    split_lines-Divides [] (record { offset = doc.offset; lines = [] }) doc.lines
