-- ===== src/Files/Simple/Documents.antt =====
-- Each simple object keeps the document that it is made from.
use nobl9_language_server.Base.{
  ℕ, suc, ◌≡◌, refl, Option, none, some, List, [], ◌∷◌, map, Exec, ok, err, panic, out_of_fuel,
  ◌>>=◌, arith, Option-cases, inl, inr,
}
use mathlib.Core.Path.{subst}
use nobl9_language_server.Text.{Bytes}
use nobl9_language_server.Manifest.{no_kind}
use nobl9_language_server.YamlAstSimple.Lines.{Line, Document, get_map_value}
use nobl9_language_server.Files.Simple.{
  Sdk, SimpleObjectNode, behind_dot, read_field, read_line, read_lines, parse_simple_object_node,
  parse_elements,
}
use nobl9_language_server.Files.Simple.Splitting.{}

abbrev pub docs_of : List SimpleObjectNode → List Document
docs_of nodes = map (λ (node : SimpleObjectNode). node.doc) nodes

module _ (sdk : Sdk) where
  -- A node of the document, where there is one.
  abbrev KeepsDoc : Document → Option SimpleObjectNode → Type 0
  KeepsDoc doc none = Unit
  KeepsDoc doc (some node) = node.doc ≡ doc

  read_field-KeepsDoc :
      (node : SimpleObjectNode) (key : Bytes) (value : Option Bytes)
      → KeepsDoc node.doc (read_field sdk node key value)
  unfolding read_field
  read_field-KeepsDoc node key none = ground arith
  read_field-KeepsDoc node key (some v) = ground arith

  read_line-KeepsDoc :
      (node : SimpleObjectNode) (l : Line) → KeepsDoc node.doc (read_line sdk node l)
  unfolding read_line
  read_line-KeepsDoc node l = elim (Option-cases (behind_dot l.path)) [
    | inl e ↦ rw (e, read_line) refl
    | inr (key, e) ↦ rw (e, read_line) (read_field-KeepsDoc node key (get_map_value l))
  ]

  read_lines-KeepsDoc :
      (node : SimpleObjectNode) (ls : List Line) → KeepsDoc node.doc (read_lines sdk node ls)
  unfolding read_lines
  read_lines-KeepsDoc node [] = refl
  read_lines-KeepsDoc node (l ∷ ls) = elim (Option-cases (read_line sdk node l)) [
    | inl e ↦ rw (e, read_lines) tt
    | inr (node', e) ↦
        let same : node'.doc ≡ node.doc =
          subst (λ o. KeepsDoc node.doc o) e (read_line-KeepsDoc node l) in
        rw (e, read_lines)
          (subst (λ d. KeepsDoc d (read_lines sdk node' ls)) same (read_lines-KeepsDoc node' ls))
  ]

  abbrev pub OfDoc : Document → Exec SimpleObjectNode → Type 0
  OfDoc doc (ok node) = node.doc ≡ doc
  OfDoc doc _ = Unit

  read-OfDoc :
      (doc : Document) (o : Option SimpleObjectNode)
      → KeepsDoc doc o
      → OfDoc doc (elim o [ none ↦ panic | some node ↦ ok node ])
  read-OfDoc doc none h = tt
  read-OfDoc doc (some node) h = h

  pub parse_simple_object_node-OfDoc :
      (element : Option ℕ) (doc : Document) → OfDoc doc (parse_simple_object_node sdk element doc)
  unfolding parse_simple_object_node
  parse_simple_object_node-OfDoc element doc =
      let first : SimpleObjectNode = record {
        kind = no_kind;
        version = [];
        doc = doc;
        list_element = element;
      } in
      read-OfDoc doc (read_lines sdk first doc.lines) (read_lines-KeepsDoc first doc.lines)

  abbrev pub OfDocs : List Document → Exec (List SimpleObjectNode) → Type 0
  OfDocs ds (ok nodes) = docs_of nodes ≡ ds
  OfDocs ds _ = Unit

  OfDocs-cons :
      (d : Document) (ds : List Document) (r : Exec SimpleObjectNode)
      (rs : Exec (List SimpleObjectNode))
      → OfDoc d r
      → OfDocs ds rs
      → OfDocs (d ∷ ds) (r >>= λ node. rs >>= λ nodes. ok (node ∷ nodes))
  OfDocs-cons d ds (ok node) (ok nodes) h hs = ground arith
  OfDocs-cons d ds (ok node) (err e) h hs = tt
  OfDocs-cons d ds (ok node) panic h hs = tt
  OfDocs-cons d ds (ok node) out_of_fuel h hs = tt
  OfDocs-cons d ds (err e) rs h hs = tt
  OfDocs-cons d ds panic rs h hs = tt
  OfDocs-cons d ds out_of_fuel rs h hs = tt

  pub parse_elements-OfDocs : (i : ℕ) (ds : List Document) → OfDocs ds (parse_elements sdk i ds)
  unfolding parse_elements
  parse_elements-OfDocs i [] = refl
  parse_elements-OfDocs i (d ∷ ds) =
      OfDocs-cons d ds (parse_simple_object_node sdk (some i) d) (parse_elements sdk (suc i) ds)
        (parse_simple_object_node-OfDoc (some i) d) (parse_elements-OfDocs (suc i) ds)
