-- ===== src/Files/Simple/Nodes.antt =====
-- The documents of the nodes that `ParseSimpleObjectFile` returns.
use nobl9_language_server.Base.{
  ℕ, ◌+◌, ◌≡◌, refl, sym, ap, ◌∙◌, true, none, List, [], ◌∷◌, ◌++◌, append_assoc, append-nil,
  length, length-append, ◌==◌, Exec, ok, err, panic, out_of_fuel, ◌>>=◌, arith, if_intro,
}
use mathlib.Core.Path.{subst}
use nobl9_language_server.Text.{Bytes, split}
use nobl9_language_server.YamlAstSimple.Lines.{Line, Document}
use nobl9_language_server.YamlAstSimple.{parse_file}
use nobl9_language_server.YamlAstSimple.Origin.{all_lines, AreMade, Takes, parse_file-Takes}
use nobl9_language_server.YamlAstSimple.Tiling.{span, Tiles, Covers, parse_file-Covers}
use nobl9_language_server.Files.Simple.{
  Sdk, SimpleObjectNode, parse_simple_object_node, parse_elements, parse_doc, parse_all,
  parse_simple_object_file, doc_is_list, split_list_document,
}
use nobl9_language_server.Files.Simple.Splitting.{AreAdjacent, Divides, split_list_document-Divides}
use nobl9_language_server.Files.Simple.Documents.{
  docs_of, OfDocs, OfDoc, parse_simple_object_node-OfDoc, parse_elements-OfDocs,
}

-- Documents one after the other from `start` on, with these lines between them.
abbrev pub Cover : ℕ → List Line → Exec (List SimpleObjectNode) → Type 0
Cover start ls (ok nodes) = AreAdjacent start (docs_of nodes) × (all_lines (docs_of nodes) ≡ ls)
Cover start ls _ = Unit

AreAdjacent-append :
    (start : ℕ) (xs ys : List Document)
    → AreAdjacent start xs
    → AreAdjacent (start + length (all_lines xs)) ys
    → AreAdjacent start (xs ++ ys)
AreAdjacent-append start [] ys h k = subst (λ s. AreAdjacent s ys) (omega arith) k
AreAdjacent-append start (d ∷ ds) ys (e, h) k = (
  e,
  AreAdjacent-append (start + length d.lines) ds ys h
      (subst (λ s. AreAdjacent s ys) (omega (arith, length-append d.lines (all_lines ds))) k),
)

all_lines-append : (xs ys : List Document) → all_lines (xs ++ ys) ≡ all_lines xs ++ all_lines ys
all_lines-append [] ys = refl
all_lines-append (d ∷ ds) ys =
    ap (λ ls. d.lines ++ ls) (all_lines-append ds ys)
    ∙ sym (append_assoc d.lines (all_lines ds) (all_lines ys))

module _ (sdk : Sdk) where
  OfDocs-Cover :
      (start : ℕ) (ls : List Line) (ds : List Document) (r : Exec (List SimpleObjectNode))
      → (all_lines ds ≡ ls) × AreAdjacent start ds
      → OfDocs sdk ds r
      → Cover start ls r
  OfDocs-Cover start ls ds (ok nodes) (lines, adjacent) h =
      (subst (λ es. AreAdjacent start es) (sym h) adjacent, ap all_lines h ∙ lines)
  OfDocs-Cover start ls ds (err e) d h = tt
  OfDocs-Cover start ls ds panic d h = tt
  OfDocs-Cover start ls ds out_of_fuel d h = tt

  elements-Cover :
      (start : ℕ) (ls : List Line) (r : Exec (List Document))
      → Divides start ls r
      → Cover start ls (r >>= parse_elements sdk 0)
  elements-Cover start ls (ok ds) h =
      OfDocs-Cover start ls ds (parse_elements sdk 0 ds) h (parse_elements-OfDocs sdk 0 ds)
  elements-Cover start ls (err e) h = tt
  elements-Cover start ls panic h = tt
  elements-Cover start ls out_of_fuel h = tt

  single-Cover :
      (doc : Document) (r : Exec SimpleObjectNode)
      → OfDoc sdk doc r
      → Cover doc.offset doc.lines (r >>= λ node. ok (node ∷ []))
  single-Cover doc (ok node) h = (
    (ap (λ (d : Document). d.offset) h, tt),
    append-nil node.doc.lines ∙ ap (λ (d : Document). d.lines) h,
  )
  single-Cover doc (err e) h = tt
  single-Cover doc panic h = tt
  single-Cover doc out_of_fuel h = tt

  no_lines : (ls : List Line) → (length ls == 0) ≡ true → ◌≡◌ {A = List Line} [] ls
  no_lines [] h = refl
  no_lines (l ∷ ls) h = ground arith

  parse_doc-Cover : (doc : Document) → Cover doc.offset doc.lines (parse_doc sdk doc)
  unfolding parse_doc
  parse_doc-Cover doc =
      if_intro {A = Exec (List SimpleObjectNode)} (λ r. Cover doc.offset doc.lines r)
        (length doc.lines == 0) (λ e. (tt, no_lines doc.lines e))
        (λ _.
          if_intro {A = Exec (List SimpleObjectNode)} (λ r. Cover doc.offset doc.lines r)
            (doc_is_list doc)
            (λ _.
              elements-Cover doc.offset doc.lines (split_list_document doc)
                (split_list_document-Divides doc))
            (λ _.
              single-Cover doc (parse_simple_object_node sdk none doc)
                (parse_simple_object_node-OfDoc sdk none doc)))

  Cover-append :
      (start : ℕ) (ls ms : List Line) (r s : Exec (List SimpleObjectNode))
      → Cover start ls r
      → Cover (start + length ls) ms s
      → Cover start (ls ++ ms) (r >>= λ nodes. s >>= λ more. ok (nodes ++ more))
  Cover-append start ls ms (ok nodes) (ok more) (a, e) (b, f) =
      let both : docs_of (nodes ++ more) ≡ docs_of nodes ++ docs_of more =
        docs_of-append nodes more in
      (
        subst (λ ds. AreAdjacent start ds) (sym both)
            (AreAdjacent-append start (docs_of nodes) (docs_of more) a
              (subst (λ ks. AreAdjacent (start + length ks) (docs_of more)) (sym e) b)),
        ap all_lines both
            ∙ all_lines-append (docs_of nodes) (docs_of more)
            ∙ ap (λ ks. ks ++ all_lines (docs_of more)) e
            ∙ ap (λ ks. ls ++ ks) f,
      )
    where
      docs_of-append :
          (xs ys : List SimpleObjectNode) → docs_of (xs ++ ys) ≡ docs_of xs ++ docs_of ys
      docs_of-append [] ys = refl
      docs_of-append (x ∷ xs) ys = ap (λ ds. x.doc ∷ ds) (docs_of-append xs ys)
  Cover-append start ls ms (ok nodes) (err e) h k = tt
  Cover-append start ls ms (ok nodes) panic h k = tt
  Cover-append start ls ms (ok nodes) out_of_fuel h k = tt
  Cover-append start ls ms (err e) s h k = tt
  Cover-append start ls ms panic s h k = tt
  Cover-append start ls ms out_of_fuel s h k = tt

  parse_all-Cover :
      (start : ℕ) (ds : List Document)
      → AreAdjacent start ds
      → Cover start (all_lines ds) (parse_all sdk ds)
  unfolding parse_all
  parse_all-Cover start [] h = (tt, refl)
  parse_all-Cover start (d ∷ ds) (e, h) =
      Cover-append start d.lines (all_lines ds) (parse_doc sdk d) (parse_all sdk ds)
        (subst (λ s. Cover s d.lines (parse_doc sdk d)) e (parse_doc-Cover d))
        (parse_all-Cover (start + length d.lines) ds h)

  Tiles-AreAdjacent :
      (i : ℕ) (ds : List Document) (raws : List Bytes) → Tiles i ds raws → AreAdjacent i ds
  Tiles-AreAdjacent i [] raws h = tt
  Tiles-AreAdjacent i (d ∷ ds) raws (e, len, ne, h) =
      (e, subst (λ k. AreAdjacent (i + k) ds) (sym len) (Tiles-AreAdjacent (i + span raws) ds _ h))

  -- The nodes of a text: documents one after the other from the first line on, whose lines are made
  -- from the lines of the text, one from each.
  abbrev pub AreOf : List Bytes → List SimpleObjectNode → Type 0
  AreOf raws nodes = AreAdjacent 0 (docs_of nodes) × AreMade (all_lines (docs_of nodes)) raws []

  abbrev AreOfOr : List Bytes → Exec (List SimpleObjectNode) → Type 0
  AreOfOr raws (ok nodes) = AreOf raws nodes
  AreOfOr raws _ = Unit

  nodes-AreOf :
      (raws : List Bytes) (ls : List Line) (r : Exec (List SimpleObjectNode))
      → AreMade ls raws []
      → Cover 0 ls r
      → AreOfOr raws r
  nodes-AreOf raws ls (ok nodes) made (adjacent, same) =
      (adjacent, subst (λ ks. AreMade ks raws []) (sym same) made)
  nodes-AreOf raws ls (err e) made h = tt
  nodes-AreOf raws ls panic made h = tt
  nodes-AreOf raws ls out_of_fuel made h = tt

  docs-AreOf :
      (raws : List Bytes) (r : Exec (List Document))
      → Takes raws r
      → Covers 0 raws r
      → AreOfOr raws (r >>= parse_all sdk)
  docs-AreOf raws (ok ds) made tiles =
      nodes-AreOf raws (all_lines ds) (parse_all sdk ds) made
        (parse_all-Cover 0 ds (Tiles-AreAdjacent 0 ds raws tiles))
  docs-AreOf raws (err e) made tiles = tt
  docs-AreOf raws panic made tiles = tt
  docs-AreOf raws out_of_fuel made tiles = tt

  pub parse_simple_object_file-AreOf :
      (content : Bytes) {nodes : List SimpleObjectNode}
      → parse_simple_object_file sdk content ≡ ok nodes
      → AreOf (split b'\n' content) nodes
  unfolding parse_simple_object_file
  parse_simple_object_file-AreOf content h =
      subst (λ r. AreOfOr (split b'\n' content) r) h
        (docs-AreOf (split b'\n' content) (parse_file content) (parse_file-Takes content)
          (parse_file-Covers content))
