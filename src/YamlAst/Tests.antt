-- ===== src/YamlAst/Tests.antt =====
-- Two documents, the second one a list.
use nobl9_language_server.Base.{ℕ, none, some, List, [], ◌∷◌, arith}
use nobl9_language_server.Text.{Bytes, codes}
use nobl9_language_server.YamlAst.{YamlDocument, sequence, single, document_nodes, flatten}
use nobl9_language_server.YamlAst.Spans.{IsAscending, AreDisjoint, flatten-AreDisjoint}

abbrev text : Bytes
text = codes "a: b\n---\n- c\n- d\n"

abbrev two_documents : List (YamlDocument ℕ)
two_documents =
    record { start = none; body = some (single 1 0) }
    ∷ record { start = some 2; body = some (sequence ((3, 1) ∷ (4, 2) ∷ [])) }
    ∷ []

two_documents-IsAscending : IsAscending (document_nodes two_documents)
unfolding document_nodes
two_documents-IsAscending = (
  omega arith,
  (omega arith, (omega arith, (omega arith, tt))),
  (
    omega arith,
    (omega arith, (omega arith, tt)),
    (omega arith, (omega arith, tt), (omega arith, tt, tt)),
  ),
)

flatten-AreDisjoint_example : AreDisjoint (flatten text two_documents)
flatten-AreDisjoint_example = flatten-AreDisjoint text two_documents two_documents-IsAscending
