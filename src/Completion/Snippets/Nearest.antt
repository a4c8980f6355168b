-- ===== src/Completion/Snippets/Nearest.antt =====
-- The line above a position that is neither blank nor a comment.
use nobl9_language_server.Base.{
  ℕ, ◌+◌, ◌<◌, ◌≡◌, refl, sym, Bool, Option, none, some, List, [], ◌∷◌, length, arith, Option-cases,
  inl, inr,
}
use mathlib.Core.Path.{subst}
use nobl9_language_server.YamlAstSimple.Lines.{Line, Document, find_line}
use nobl9_language_server.Files.{ℤ, pos, negsuc}
use nobl9_language_server.Files.Simple.{SimpleObjectNode}
use nobl9_language_server.Files.Simple.Splitting.{AreAdjacent}
use nobl9_language_server.Files.Simple.Documents.{docs_of}
use nobl9_language_server.Locate.{Place, locate_from, both, locate}
use nobl9_language_server.Completion.Snippets.{find_back, or_else, find_line_back}
use nobl9_language_server.Completion.Snippets.Back.{
  find_line-before, line_inside, StopsAt, SkipsAll, Ends, find_back-Ends, find_back-none,
  Skips-below,
}

module _ (filter : Line → Bool) where
  -- The line found stands up to `n` in the document, and all lines between are passed over; if none
  -- is found, all lines up to `n` are.
  abbrev pub IsNearest : Document → ℕ → Option Line → Type 0
  IsNearest d n (some l) = (m : ℕ) × StopsAt filter d n m l
  IsNearest d n none = SkipsAll filter d n

  find_line_back-negative :
      (nodes : List SimpleObjectNode) (k : ℕ) → find_line_back filter nodes (negsuc k) ≡ none
  unfolding find_line_back
  find_line_back-negative [] k = refl
  find_line_back-negative (node ∷ nodes) k = find_line_back-negative nodes k

  find_line_back-before :
      (nodes : List SimpleObjectNode) (start m : ℕ)
      → AreAdjacent start (docs_of nodes)
      → m < start
      → find_line_back filter nodes (pos m) ≡ none
  unfolding find_line_back
  find_line_back-before [] start m h lt = refl
  find_line_back-before (node ∷ nodes) start m (e, h) lt =
      let nothing : find_line node.doc m ≡ none = find_line-before node.doc m (omega arith) in
      rw (find_back-none filter node.doc m nothing, find_line_back)
        (find_line_back-before nodes (start + length node.doc.lines) m h (omega arith))

  Ends-IsNearest :
      (d : Document) (n : ℕ) {l : Line} (nodes : List SimpleObjectNode) (r : Option Line × ℤ)
      → find_line d n ≡ some l
      → AreAdjacent (d.offset + length d.lines) (docs_of nodes)
      → Ends filter d n r
      → IsNearest d n (or_else filter r (λ m. find_line_back filter nodes m))
  Ends-IsNearest d n nodes (some l', pos m) e h ends = (m, ends)
  Ends-IsNearest d n nodes (some l', negsuc m) e h ends = elim ends [ ]
  Ends-IsNearest d n nodes (none, pos m) e h (le, gap, skips) =
      subst (λ o. IsNearest d n o)
        (sym (
          find_line_back-before nodes (d.offset + length d.lines) m h
            (omega (arith, line_inside d n e))))
        (Skips-below filter d m n e le gap skips)
  Ends-IsNearest d n nodes (none, negsuc m) e h ends =
      subst (λ o. IsNearest d n o) (sym (find_line_back-negative nodes m)) ends

  IsNearest-from :
      (last : Option SimpleObjectNode) (nodes : List SimpleObjectNode) (start n : ℕ)
      {node : SimpleObjectNode} {l : Line}
      → AreAdjacent start (docs_of nodes)
      → locate_from (last, none) nodes n ≡ (some node, some l)
      → IsNearest node.doc n (find_line_back filter nodes (pos n))
  unfolding locate_from find_line_back
  IsNearest-from last [] start n h e = cc
  IsNearest-from last (node' ∷ nodes) start n {node} {l} (e', h) e =
      elim (Option-cases (find_line node'.doc n)) [
        | inl nothing ↦
            rw (find_back-none filter node'.doc n nothing, find_line_back)
              (IsNearest-from (some node') nodes (start + length node'.doc.lines) n h
                (rw (nothing, locate_from) at e))
        | inr (l', found) ↦
            let same : node' ≡ node = the_node node' node l' l (rw (found, locate_from) at e) in
            subst
              (λ (x : SimpleObjectNode).
                IsNearest x.doc n (find_line_back filter (node' ∷ nodes) (pos n)))
              same
              (Ends-IsNearest node'.doc n nodes (find_back filter node'.doc n) found
                (subst (λ s. AreAdjacent (s + length node'.doc.lines) (docs_of nodes)) (sym e') h)
                (find_back-Ends filter node'.doc n))
      ]
    where
      the_node :
          (x y : SimpleObjectNode) (k m : Line)
          → ◌≡◌ {A = Place} (some x, some k) (some y, some m)
          → x ≡ y
      the_node x y k m q = cc

  both-some :
      (p : Place) {node : SimpleObjectNode} {l : Line}
      → both p ≡ some (node, l)
      → p ≡ (some node, some l)
  both-some (some x, some k) h = cc
  both-some (some x, none) h = cc
  both-some (none, k) h = cc

  -- Where the documents of the nodes follow one another and a number is located in one of them,
  -- `findLine` from this number gives the nearest line at or above it, in the same document, that the
  -- filter does not pass over; and it gives nil only if the filter passes over every line of that
  -- document up to the number.
  pub find_line_back-IsNearest :
      (nodes : List SimpleObjectNode) (start n : ℕ) {node : SimpleObjectNode} {l : Line}
      → AreAdjacent start (docs_of nodes)
      → locate nodes n ≡ some (node, l)
      → IsNearest node.doc n (find_line_back filter nodes (pos n))
  unfolding locate
  find_line_back-IsNearest nodes start n h e =
      IsNearest-from none nodes start n h (both-some (locate_from (none, none) nodes n) e)
