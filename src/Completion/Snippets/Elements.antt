-- ===== src/Completion/Snippets/Elements.antt =====
-- How a snippet is indented as an element of a list.
use nobl9_language_server.Base.{
  ℕ, ◌≡◌, refl, sym, ap, ◌∙◌, Bool, true, false, List, [], ◌∷◌, ◌++◌, All, ◌==◌, append_assoc,
  append-nil, Bool-cases, inl, inr,
}
use nobl9_language_server.Text.{Bytes, split, onto_first}
use nobl9_language_server.Completion.Snippets.{
  indent_of, element_lines, format_object_to_array_element,
}

-- The lines that are not blank.
abbrev pub filled : List Bytes → List Bytes
filled [] = []
filled ([] ∷ ls) = filled ls
filled ((c ∷ cs) ∷ ls) = (c ∷ cs) ∷ filled ls

-- The lines that are not blank, with two blanks in front of all but the first line.
abbrev indented : Bool → List Bytes → List Bytes
indented first [] = []
indented first ([] ∷ ls) = indented false ls
indented first ((c ∷ cs) ∷ ls) = (indent_of first ++ c ∷ cs) ∷ indented false ls

abbrev IsInLine : Bytes → Type 0
IsInLine s = All (λ c. (c == b'\n') ≡ false) s

-- A line in front of a line break, and a last line.
split_line : (s rest : Bytes) → IsInLine s → split b'\n' (s ++ b'\n' ∷ rest) ≡ s ∷ split b'\n' rest
unfolding split
split_line [] rest h = refl
split_line (c ∷ s) rest (h, hs) = rw (h, split_line s rest hs)

split_last : (s : Bytes) → IsInLine s → split b'\n' s ≡ s ∷ []
unfolding split
split_last [] h = refl
split_last (c ∷ s) (h, hs) = rw (h, split_last s hs)

indent-IsInLine : (first : Bool) (s : Bytes) → IsInLine s → IsInLine (indent_of first ++ s)
indent-IsInLine true s h = h
indent-IsInLine false s h = (refl, (refl, h))

filled_indent :
    (first : Bool) (c : ℕ) (cs : Bytes) (ls : List Bytes)
    → filled ((indent_of first ++ c ∷ cs) ∷ ls) ≡ (indent_of first ++ c ∷ cs) ∷ filled ls
filled_indent true c cs ls = refl
filled_indent false c cs ls = refl

filled-element_lines :
    (first : Bool) (parts : List Bytes)
    → All IsInLine parts
    → filled (split b'\n' (element_lines first parts)) ≡ indented first parts
unfolding element_lines split
filled-element_lines first [] h = refl
filled-element_lines first ([] ∷ ps) (h, hs) = filled-element_lines false ps hs
filled-element_lines first ((c ∷ cs) ∷ []) (h, hs) =
    let whole : Bytes = indent_of first ++ c ∷ cs in
    let same : (indent_of first ++ ((c ∷ cs) ++ [])) ++ [] ≡ whole =
      append-nil (indent_of first ++ ((c ∷ cs) ++ []))
      ∙ ap (λ t. indent_of first ++ t) (append-nil (c ∷ cs)) in
    ap (λ t. filled (split b'\n' t)) same
    ∙ ap filled (split_last whole (indent-IsInLine first (c ∷ cs) h))
    ∙ filled_indent first c cs []
filled-element_lines first ((c ∷ cs) ∷ q ∷ ps) (h, hs) =
    let whole : Bytes = indent_of first ++ c ∷ cs in
    let rest : Bytes = element_lines false (q ∷ ps) in
    let same : (indent_of first ++ ((c ∷ cs) ++ b'\n' ∷ [])) ++ rest ≡ whole ++ b'\n' ∷ rest =
      ap (λ t. t ++ rest) (sym (append_assoc (indent_of first) (c ∷ cs) (b'\n' ∷ [])))
      ∙ append_assoc whole (b'\n' ∷ []) rest in
    ap (λ t. filled (split b'\n' t)) same
    ∙ ap filled (split_line whole rest (indent-IsInLine first (c ∷ cs) h))
    ∙ filled_indent first c cs (split b'\n' rest)
    ∙ ap (λ ls. whole ∷ ls) (filled-element_lines false (q ∷ ps) hs)

onto_first-IsInLine :
    (c : ℕ) (ps : List Bytes)
    → (c == b'\n') ≡ false
    → All IsInLine ps
    → All IsInLine (onto_first c ps)
onto_first-IsInLine c [] e h = ((e, tt), tt)
onto_first-IsInLine c (p ∷ ps) e (h, hs) = ((e, h), hs)

split-IsInLine : (s : Bytes) → All IsInLine (split b'\n' s)
unfolding split
split-IsInLine [] = (tt, tt)
split-IsInLine (c ∷ s) =
    let rest = split-IsInLine s in
    elim (Bool-cases (c == b'\n')) [
      | inl e ↦ rw e (tt, rest)
      | inr e ↦ rw e (onto_first-IsInLine c (split b'\n' s) e rest)
    ]

-- Two blanks in front of each line that is not blank.
abbrev pub shifted : List Bytes → List Bytes
shifted [] = []
shifted ([] ∷ ls) = shifted ls
shifted ((c ∷ cs) ∷ ls) = (b' ' ∷ b' ' ∷ c ∷ cs) ∷ shifted ls

-- The first line as it is, if it is not blank, and the others shifted.
abbrev pub as_element : List Bytes → List Bytes
as_element [] = []
as_element ([] ∷ ls) = shifted ls
as_element ((c ∷ cs) ∷ ls) = (c ∷ cs) ∷ shifted ls

indented-shifted : (ls : List Bytes) → indented false ls ≡ shifted ls
indented-shifted [] = refl
indented-shifted ([] ∷ ls) = indented-shifted ls
indented-shifted ((c ∷ cs) ∷ ls) = ap (λ ms. (b' ' ∷ b' ' ∷ c ∷ cs) ∷ ms) (indented-shifted ls)

indented-as_element : (ls : List Bytes) → indented true ls ≡ as_element ls
indented-as_element [] = refl
indented-as_element ([] ∷ ls) = indented-shifted ls
indented-as_element ((c ∷ cs) ∷ ls) = ap (λ ms. (c ∷ cs) ∷ ms) (indented-shifted ls)

-- As an element of a list, a snippet keeps its lines that are not blank, in their order: its first
-- line as it is, if that is not blank, and all others with two blanks in front.
pub filled-format :
    (s : Bytes)
    → filled (split b'\n' (format_object_to_array_element s)) ≡ as_element (split b'\n' s)
unfolding format_object_to_array_element
filled-format s =
    filled-element_lines true (split b'\n' s) (split-IsInLine s)
    ∙ indented-as_element (split b'\n' s)
