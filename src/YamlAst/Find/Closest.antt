-- ===== src/YamlAst/Find/Closest.antt =====
-- What `Find` finds in a tree of which the lines are in order.
use nobl9_language_server.Base.{
  All-weaken, ℕ, zero, suc, ◌≤◌, ◌<◌, ◌≡◌, ◌⊎◌, inl, inr, refl, Bool-cases, Option, none, some,
  List, [], ◌∷◌, ltb, ◌==◌, ok, All, arith, ltb→lt,
}
use nobl9_language_server.YamlAst.Find.{
  View, Ast, mapping, mapping_value, sequence, other, find_closest_node, walk_view, walk, find,
}
use nobl9_language_server.YamlAst.Find.Entries.{
  Entry, start, line_at, entries_of, entries_under, entries_in, entries, IsHeaded, AreInOrder,
  IsBlockView, IsBlock, IsClosest, All-lookup,
}
use nobl9_language_server.YamlAst.Find.Choice.{
  closest_from-Chooses, entries_behind, Picks-lookup, Picks-le, IsFound-list, headed-IsFound,
  bare-IsClosest,
}

module _ (ast : Ast) where
  open ast use {Node, view, line_of}

  key_kept :
      (depth line : ℕ) (key : Node) (found : Option Node)
      → IsBlock ast depth key
      → view key ≡ other
      → walk ast depth line (some key) found ≡ ok found
  unfolding walk walk_view
  key_kept zero line key found b e = absurd b
  key_kept (suc depth) line key found b e = rw e refl

  -- Walking below a node of a smaller depth, as in the induction.
  abbrev Walks : ℕ → ℕ → Type 0
  Walks depth line =
      (n : Node) (found : Option Node)
      → IsBlock ast depth n
      → (r : Option Node) × (walk ast depth line (some n) found ≡ ok r)
        × IsClosest ast line (entries ast depth n) found r

  list_walk :
      (depth line : ℕ) (es : List Node) (found : Option Node)
      → Walks depth line
      → All (IsBlock ast depth) es
      → AreInOrder ast (entries ast depth) es
      → All (IsHeaded ast (entries ast depth)) es ⊎ (entries_of ast (entries ast depth) es ≡ [])
      → (r : Option Node) × (walk ast depth line (find_closest_node ast line es) found ≡ ok r)
        × IsClosest ast line (entries_of ast (entries ast depth) es) found r
  unfolding walk find_closest_node
  list_walk depth line es found ih blocks order heads =
      elim (closest_from-Chooses ast (entries ast depth) line es none 0 order
        (positive (entries ast depth) es order)) [
          | inl (behind, e) ↦ (
            found,
            rw e (walk-none depth),
            inl (entries_behind ast (entries ast depth) line es order behind, refl),
          )
          | inr (n, e, picks) ↦
              let (r, walked, closest) =
                ih n found (
                  Picks-lookup ast (entries ast depth) line (IsBlock ast depth) n es picks
                    blocks) in
              (
                r,
                rw e walked,
                elim heads [
                  | inl headed ↦ inr (
                      IsFound-list ast (entries ast depth) line n es r picks order (
                        headed-IsFound ast (entries ast depth) line n found r
                          (Picks-lookup ast (entries ast depth) line
                            (IsHeaded ast (entries ast depth)) n es picks headed)
                          (Picks-le ast (entries ast depth) line n es picks) closest))
                  | inr bare ↦
                      bare-IsClosest ast (entries ast depth) line n es found r picks bare closest
                ],
              )
        ]
    where
      walk-none : (depth : ℕ) → walk ast depth line none found ≡ ok found
      walk-none zero = refl
      walk-none (suc depth) = refl

      positive :
          (each : Node → List (Entry ast)) (es : List Node)
          → AreInOrder ast each es
          → All (λ n. 0 < line_at ast n) es
      positive each [] order = tt
      positive each (n ∷ ns) (one, _, _, _, order) = (omega arith, positive each ns order)

  by_line :
      (line l : ℕ) (es : List (Entry ast))
      → l ≡ line
      → All (λ f. (start ast f ≤ l) ⊎ (line < start ast f)) es
  by_line line l [] same = tt
  by_line line l (f ∷ fs) same = (le_or_lt (start ast f), by_line line l fs same)
    where
      le_or_lt : (a : ℕ) → (a ≤ l) ⊎ (line < a)
      le_or_lt a = elim (Bool-cases (ltb line a)) [
        | inl e ↦ inr (ltb→lt line a e)
        | inr e ↦ inl (ground arith)
      ]

  -- The entry itself is the closest one, unless one of its value is.
  beneath :
      (line l : ℕ) (n : Node) (below : List (Entry ast)) (before found : Option Node)
      → l ≤ line
      → All (λ e. l ≤ start ast e) below
      → IsClosest ast line below (some n) found
      → IsClosest ast line ((l, n) ∷ below) before found
  beneath line l n below before found le from (inl (behind, same)) = inr (
    (l, n),
    inl refl,
    le,
    (
      inl (omega arith),
      All-weaken (λ f. line < start ast f) (λ f. (start ast f ≤ l) ⊎ (line < start ast f))
          (λ f. inr) below behind,
    ),
    same,
  )
  beneath line l n below before found le from (inr (e, among, fits, all, is)) = inr (
    e,
    inr among,
    fits,
    (inl (All-lookup ast (λ f. l ≤ start ast f) e below from among), all),
    is,
  )

  value_from :
      (depth l : ℕ) (key : Node) (value : Option Node)
      → IsBlockView ast (IsBlock ast depth) (entries ast depth) (mapping_value l key value)
      → IsBlock ast depth key
        × (view key ≡ other)
        × All (λ e. l ≤ start ast e) (entries_under ast (entries ast depth) value)
  value_from depth l key none (block, bare) = (block, bare, tt)
  value_from depth l key (some value) (block, bare, _, from) = (block, bare, from)

  walk-none : (depth line : ℕ) (found : Option Node) → walk ast depth line none found ≡ ok found
  unfolding walk
  walk-none zero line found = refl
  walk-none (suc depth) line found = refl

  value_walk :
      (depth line l : ℕ) (key : Node) (value found : Option Node)
      → Walks depth line
      → IsBlockView ast (IsBlock ast depth) (entries ast depth) (mapping_value l key value)
      → (r : Option Node) × (walk ast depth line value found ≡ ok r)
        × IsClosest ast line (entries_under ast (entries ast depth) value) found r
  value_walk depth line l key none found ih b = (found, walk-none depth line found, inl (tt, refl))
  value_walk depth line l key (some value) found ih (_, _, block, _) = ih value found block

  view_walk :
      (depth line : ℕ) (n : Node) (v : View Node) (found : Option Node)
      → Walks depth line
      → IsBlockView ast (IsBlock ast depth) (entries ast depth) v
      → (r : Option Node) × (walk_view ast line (walk ast depth line) n v found ≡ ok r)
        × IsClosest ast line (entries_in ast (entries ast depth) n v) found r
  unfolding walk_view
  view_walk depth line n (mapping es) found ih (blocks, order, heads) =
      list_walk depth line es found ih blocks order (inl heads)
  view_walk depth line n (sequence es) found ih (blocks, order, heads) =
      list_walk depth line es found ih blocks order heads
  view_walk depth line n other found ih b = (found, refl, inl (tt, refl))
  view_walk depth line n (mapping_value l key value) found ih b =
      let (block, bare, from) = value_from depth l key value b in
      let below : List (Entry ast) = entries_under ast (entries ast depth) value in
      elim (Bool-cases (l == line)) [
        | inl e ↦ (
          some n,
          rw e refl,
          inr (
            (l, n),
            inl refl,
            ground arith,
            (inl (omega arith), by_line line l below (ground arith)),
            refl,
          ),
        )
        | inr f ↦ elim (Bool-cases (ltb line l)) [
          | inl e ↦ (
            found,
            rw (f, e) refl,
            inl (
              (
                ltb→lt line l e,
                All-weaken (λ m. l ≤ start ast m) (λ m. line < start ast m)
                    (λ m le. omega (arith, ltb→lt line l e)) below from,
              ),
              refl,
            ),
          )
          | inr g ↦
              let (r, walked, closest) = value_walk depth line l key value (some n) ih b in
              (
                r,
                rw (f, g) (rw (key_kept depth line key (some n) block bare) walked),
                beneath line l n below found r (ground arith) from closest,
              )
        ]
      ]

  walk-IsClosest : (depth line : ℕ) → Walks depth line
  unfolding walk
  walk-IsClosest zero line n found b = absurd b
  walk-IsClosest (suc depth) line n found b =
      view_walk depth line n (view n) found (walk-IsClosest depth line) b

  -- In a tree of block style that is at most this deep, `Find` ends, and finds the entry that starts
  -- last among all those of the tree that do not start behind the line; or the tree itself, if every
  -- entry starts behind the line.
  pub find-IsClosest :
      (depth line : ℕ) (n : Node)
      → IsBlock ast depth n
      → (r : Option Node) × (find ast depth line (some n) ≡ ok r)
        × IsClosest ast line (entries ast depth n) (some n) r
  unfolding find
  find-IsClosest depth line n b = walk-IsClosest depth line n (some n) b
