-- ===== src/YamlAst/Spans.antt =====
-- The lines of the nodes of a file.
use nobl9_language_server.Base.{
  All-weaken, ℕ, ◌+◌, ◌-◌, ◌<◌, ◌≤◌, List, [], ◌∷◌, if_intro, All, arith,
}
use nobl9_language_server.Text.{Bytes, count}
use nobl9_language_server.YamlAst.{
  Node, YamlDocument, document_nodes, set_ends, drop_separators, flatten,
}

module _ {N : Type 0} where
  -- Lines count from one, and a node does not start in front of the one before it.
  abbrev pub IsAscending : List (Node N) → Type 0
  IsAscending [] = Unit
  IsAscending (n ∷ ns) =
      (1 ≤ n.start_line) × All (λ m. n.start_line ≤ m.start_line) ns × IsAscending ns

  -- A node ends in front of all later ones.
  abbrev pub AreDisjoint : List (Node N) → Type 0
  AreDisjoint [] = Unit
  AreDisjoint (n ∷ ns) = All (λ m. n.end_line < m.start_line) ns × AreDisjoint ns

  set_ends-All :
      (P : ℕ → Type 0) (total : ℕ) (ns : List (Node N))
      → All (λ m. P m.start_line) ns
      → All (λ m. P m.start_line) (set_ends total ns)
  unfolding set_ends
  set_ends-All P total [] h = tt
  set_ends-All P total (n ∷ []) h = h
  set_ends-All P total (n ∷ m ∷ rest) (here, h) = (here, set_ends-All P total (m ∷ rest) h)

  set_ends-AreDisjoint :
      (total : ℕ) (ns : List (Node N)) → IsAscending ns → AreDisjoint (set_ends total ns)
  unfolding set_ends
  set_ends-AreDisjoint total [] h = tt
  set_ends-AreDisjoint total (n ∷ []) h = (tt, tt)
  set_ends-AreDisjoint total (n ∷ m ∷ rest) (one, later, (first, behind, h)) = (
    set_ends-All (λ start. m.start_line - 1 < start) total (m ∷ rest)
        (
          omega arith,
          All-weaken (λ k. m.start_line ≤ k.start_line) (λ k. m.start_line - 1 < k.start_line)
              (λ k least. omega arith) rest behind,
        ),
    set_ends-AreDisjoint total (m ∷ rest) (first, behind, h),
  )

  drop_separators-All :
      (P : Node N → Type 0) (ns : List (Node N)) → All P ns → All P (drop_separators ns)
  unfolding drop_separators
  drop_separators-All P [] h = tt
  drop_separators-All P (n ∷ ns) (here, h) =
      if_intro {A = List (Node N)} (λ ms. All P ms) n.is_separator (λ _. drop_separators-All P ns h)
        (λ _. (here, drop_separators-All P ns h))

  drop_separators-AreDisjoint :
      (ns : List (Node N)) → AreDisjoint ns → AreDisjoint (drop_separators ns)
  unfolding drop_separators
  drop_separators-AreDisjoint [] h = tt
  drop_separators-AreDisjoint (n ∷ ns) (here, h) =
      if_intro {A = List (Node N)} (λ ms. AreDisjoint ms) n.is_separator
        (λ _. drop_separators-AreDisjoint ns h)
        (λ _. (
          drop_separators-All (λ m. n.end_line < m.start_line) ns here,
          drop_separators-AreDisjoint ns h,
        ))

  -- If the nodes of the documents and their separators, as `Parse` finds them, start on lines that
  -- count from one and do not decrease, the nodes that it returns share no line: each one ends in
  -- front of all later ones.
  pub flatten-AreDisjoint :
      (content : Bytes) (docs : List (YamlDocument N))
      → IsAscending (document_nodes docs)
      → AreDisjoint (flatten content docs)
  unfolding flatten
  flatten-AreDisjoint content docs h =
      drop_separators-AreDisjoint (set_ends (count b'\n' content + 1) (document_nodes docs))
        (set_ends-AreDisjoint (count b'\n' content + 1) (document_nodes docs) h)
