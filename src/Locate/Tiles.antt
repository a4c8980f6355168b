-- ===== src/Locate/Tiles.antt =====
-- A position is located on the line of the text that it names.
use nobl9_language_server.Base.{
  ℕ, zero, suc, ◌+◌, ◌-◌, ◌≤◌, ◌<◌, ◌≡◌, refl, sym, ap, ◌∙◌, true, false, Option, none, some, List,
  [], ◌∷◌, ◌++◌, ltb, length, get_elem?, if◌then◌else◌, ok, arith, Option-cases, Bool-cases, ◌⊎◌,
  inl, inr, get_elem?-append_left, get_elem?-append_right, ltb→lt,
}
use mathlib.Core.Path.{subst}
use nobl9_language_server.Text.{Bytes, split}
use nobl9_language_server.YamlAstSimple.Lines.{Line, Document, find_line}
use nobl9_language_server.YamlAstSimple.Origin.{all_lines, IsMadeFrom, IsAt, get_elem?-IsAt}
use nobl9_language_server.Files.Simple.{Sdk, SimpleObjectNode, parse_simple_object_file}
use nobl9_language_server.Files.Simple.Splitting.{AreAdjacent}
use nobl9_language_server.Files.Simple.Documents.{docs_of}
use nobl9_language_server.Files.Simple.Nodes.{parse_simple_object_file-AreOf}
use nobl9_language_server.Locate.{Place, locate_from, both, locate}

-- The line of number `n`, of lines that begin at `start`.
abbrev line_from : ℕ → List Line → ℕ → Option Line
line_from start ls n = if ltb n start then none else get_elem? ls (n - start)

-- An index within the list, or behind it.
get_elem?_cases {ℓ} :
    {A : Type ℓ} (xs : List A) (k : ℕ)
    → ((length xs ≤ k) × (get_elem? xs k ≡ none))
      ⊎ ((k < length xs) × ((x : A) × (get_elem? xs k ≡ some x)))
get_elem?_cases [] k = inl (omega arith, refl)
get_elem?_cases (x ∷ xs) zero = inr (omega arith, (x, refl))
get_elem?_cases (x ∷ xs) (suc k) = elim (get_elem?_cases xs k) [
  | inl (le, e) ↦ inl (omega arith, e)
  | inr (lt, found) ↦ inr (omega arith, found)
]

line_from-append :
    (start : ℕ) (ls ms : List Line) (n : ℕ)
    → line_from start ls n ≡ none
    → line_from (start + length ls) ms n ≡ line_from start (ls ++ ms) n
line_from-append start ls ms n h = elim (Bool-cases (ltb n start)) [
  | inl before ↦
      let early : ltb n (start + length ls) ≡ true = ground (arith, ltb→lt n start before) in
      rw (before, early)
  | inr behind ↦ elim (get_elem?_cases ls (n - start)) [
    | inl (le, e) ↦
        let late : ltb n (start + length ls) ≡ false = ground arith in
        rw (behind, late)
          (sym (get_elem?-append_right ls ms (n - (start + length ls)))
            ∙ ap (get_elem? (ls ++ ms)) (ground arith))
    | inr (lt, (l, e)) ↦ let past : get_elem? ls (n - start) ≡ none = rw behind at h in cc
  ]
]

line_from-found :
    (start : ℕ) (ls ms : List Line) (n : ℕ) {l : Line}
    → line_from start ls n ≡ some l
    → line_from start (ls ++ ms) n ≡ some l
line_from-found start ls ms n {l} h = elim (Bool-cases (ltb n start)) [
  | inl before ↦ let nothing : ◌≡◌ {A = Option Line} none (some l) = rw before at h in cc
  | inr behind ↦
      let here : get_elem? ls (n - start) ≡ some l = rw behind at h in
      elim (get_elem?_cases ls (n - start)) [
        | inl (le, e) ↦ cc
        | inr (lt, found) ↦ rw behind (get_elem?-append_left ls ms (n - start) lt ∙ here)
      ]
]

-- What the loop ends with: a node that has the line of the number, or no line at all where the nodes
-- do not have one.
abbrev IsPlace : ℕ → List SimpleObjectNode → Option Line → Place → Type 0
IsPlace n nodes none place = place.1 ≡ none
IsPlace n nodes (some l) place =
    (node : SimpleObjectNode) × (place ≡ (some node, some l))
    × (find_line node.doc n ≡ some l)
    × ((before : List SimpleObjectNode) × (after : List SimpleObjectNode) × (nodes
          ≡ before ++ node ∷ after))

IsPlace-next :
    (n : ℕ) (node : SimpleObjectNode) (nodes : List SimpleObjectNode) (o : Option Line)
    (place : Place)
    → IsPlace n nodes o place
    → IsPlace n (node ∷ nodes) o place
IsPlace-next n node nodes none place h = h
IsPlace-next n node nodes (some l) place (found, e, is, (before, after, split)) =
    (found, e, is, (node ∷ before, after, ap (λ ns. node ∷ ns) split))

find_line-line_from :
    (d : Document) (n start : ℕ) → d.offset ≡ start → find_line d n ≡ line_from start d.lines n
unfolding find_line
find_line-line_from d n start e = ap (λ k. line_from k d.lines n) e

locate_from-IsPlace :
    (last : Option SimpleObjectNode) (nodes : List SimpleObjectNode) (start n : ℕ)
    → AreAdjacent start (docs_of nodes)
    → IsPlace n nodes
        (line_from start (all_lines (docs_of nodes)) n)
        (locate_from (last, none) nodes n)
unfolding locate_from
locate_from-IsPlace last [] start n h = elim (Bool-cases (ltb n start)) [
  | inl e ↦ rw e refl
  | inr e ↦ rw e refl
]
locate_from-IsPlace last (node ∷ nodes) start n (e, h) =
    let ls : List Line = node.doc.lines in
    let ms : List Line = all_lines (docs_of nodes) in
    let same : find_line node.doc n ≡ line_from start ls n =
      find_line-line_from node.doc n start e in
    elim (Option-cases (find_line node.doc n)) [
      | inr (l, found) ↦
          rw (found, locate_from)
            (subst (λ o. IsPlace n (node ∷ nodes) o (some node, some l))
              (sym (line_from-found start ls ms n (sym same ∙ found)))
              (node, refl, found, ([], nodes, refl)))
      | inl nothing ↦
          rw (nothing, locate_from)
            (subst (λ o. IsPlace n (node ∷ nodes) o (locate_from (some node, none) nodes n))
              (line_from-append start ls ms n (sym same ∙ nothing))
              (IsPlace-next n node nodes (line_from (start + length ls) ms n)
                (locate_from (some node, none) nodes n)
                (locate_from-IsPlace (some node) nodes (start + length ls) n h)))
    ]

-- A line of the text is located: in one of the nodes, at its own number, as the line made from it.
abbrev pub IsLocated :
    ℕ → List SimpleObjectNode → Option Bytes → Option (SimpleObjectNode × Line) → Type 0
IsLocated n nodes none r = r ≡ none
IsLocated n nodes (some raw) r =
    (node : SimpleObjectNode) × (l : Line) × (r ≡ some (node, l))
    × IsMadeFrom raw l
    × (find_line node.doc n ≡ some l)
    × ((before : List SimpleObjectNode) × (after : List SimpleObjectNode) × (nodes
          ≡ before ++ node ∷ after))

both-no_line : (place : Place) → place.1 ≡ none → both place ≡ none
both-no_line (none, none) h = refl
both-no_line (some node, none) h = refl
both-no_line (none, some l) h = refl
both-no_line (some node, some l) h = cc

IsPlace-IsLocated :
    (n : ℕ) (nodes : List SimpleObjectNode) (raw : Option Bytes) (o : Option Line) (place : Place)
    → IsAt raw o
    → IsPlace n nodes o place
    → IsLocated n nodes raw (both place)
IsPlace-IsLocated n nodes none none place at h = both-no_line place h
IsPlace-IsLocated n nodes (some raw) (some l) place at (node, e, is, split) =
    (node, l, ap both e, at, is, split)
IsPlace-IsLocated n nodes none (some l) place at h = elim at [ ]
IsPlace-IsLocated n nodes (some raw) none place at h = elim at [ ]

-- A position on a line of a text that the simple parser could read is located in a node that the
-- parser returned, at the line of its document that has this number and that was made from this
-- very line of the text; a position behind the text is not located.
pub locate-IsLocated :
    (sdk : Sdk) (content : Bytes) {nodes : List SimpleObjectNode} (n : ℕ)
    → parse_simple_object_file sdk content ≡ ok nodes
    → IsLocated n nodes (get_elem? (split b'\n' content) n) (locate nodes n)
unfolding locate
locate-IsLocated sdk content {nodes} n h =
    let (adjacent, made) = parse_simple_object_file-AreOf sdk content h in
    let ls : List Line = all_lines (docs_of nodes) in
    IsPlace-IsLocated n nodes (get_elem? (split b'\n' content) n) (get_elem? ls n)
      (locate_from (none, none) nodes n) (get_elem?-IsAt ls (split b'\n' content) n made)
      (subst (λ o. IsPlace n nodes o (locate_from (none, none) nodes n)) (from_zero ls n)
        (locate_from-IsPlace none nodes 0 n adjacent))
  where
    from_zero : (ls : List Line) (n : ℕ) → line_from 0 ls n ≡ get_elem? ls n
    from_zero ls n = ground arith
