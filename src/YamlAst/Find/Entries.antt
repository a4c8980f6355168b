-- ===== src/YamlAst/Find/Entries.antt =====
-- The entries of a tree, the trees in block style, and the entry closest to a line.
use nobl9_language_server.Base.{
  ℕ, zero, suc, ◌≤◌, ◌<◌, ◌≡◌, ◌⊎◌, inl, inr, sym, Option, none, some, List, [], ◌∷◌, ◌++◌, All,
}
use mathlib.Core.Path.{subst}
use nobl9_language_server.YamlAst.{line_or_zero}
use nobl9_language_server.YamlAst.Find.{View, Ast, mapping, mapping_value, sequence, other}

module _ (ast : Ast) where
  open ast use {Node, view, line_of}

  -- An entry of a mapping, with the line on which it starts.
  abbrev pub Entry : Type 0
  Entry = ℕ × Node

  abbrev pub start : Entry → ℕ
  start (l, n) = l

  abbrev pub node_of : Entry → Node
  node_of (l, n) = n

  abbrev pub line_at : Node → ℕ
  line_at n = line_or_zero (line_of n)

  abbrev pub entries_of : (Node → List Entry) → List Node → List Entry
  entries_of each [] = []
  entries_of each (n ∷ ns) = each n ++ entries_of each ns

  abbrev pub entries_under : (Node → List Entry) → Option Node → List Entry
  entries_under each none = []
  entries_under each (some n) = each n

  abbrev pub entries_in : (Node → List Entry) → Node → View Node → List Entry
  entries_in each n (mapping es) = entries_of each es
  entries_in each n (mapping_value l key value) = (l, n) ∷ entries_under each value
  entries_in each n (sequence es) = entries_of each es
  entries_in each n other = []

  -- All entries of a tree of this depth, in their order.
  abbrev pub entries : ℕ → Node → List Entry
  entries zero n = []
  entries (suc depth) n = entries_in (entries depth) n (view n)

  -- The entry is one of these.
  abbrev pub IsAmong : Entry → List Entry → Type 0
  IsAmong e [] = ⊥
  IsAmong e (f ∷ fs) = (e ≡ f) ⊎ IsAmong e fs

  -- Some entry of a node starts on its line.
  abbrev pub IsHeaded : (Node → List Entry) → Node → Type 0
  IsHeaded each n = (m : Node) × IsAmong (line_at n, m) (each n)

  -- Nodes that follow one another: their lines count from one and increase, and the entries of each
  -- start from its line on, in front of those of the nodes behind it.
  abbrev pub AreInOrder : (Node → List Entry) → List Node → Type 0
  AreInOrder each [] = Unit
  AreInOrder each (n ∷ ns) =
      (1 ≤ line_at n)
      × All (λ m. line_at n < line_at m) ns
      × All (λ e. line_at n ≤ start e) (each n)
      × All (λ e. All (λ f. start e < start f) (entries_of each ns)) (each n)
      × AreInOrder each ns

  abbrev pub IsBlockView : (Node → Type 0) → (Node → List Entry) → View Node → Type 0
  IsBlockView ok_below each (mapping es) =
      All ok_below es × AreInOrder each es × All (IsHeaded each) es
  IsBlockView ok_below each (mapping_value l key none) = ok_below key × (view key ≡ other)
  IsBlockView ok_below each (mapping_value l key (some value)) =
      ok_below key × (view key ≡ other) × ok_below value × All (λ e. l ≤ start e) (each value)
  IsBlockView ok_below each (sequence es) =
      All ok_below es × AreInOrder each es × (All (IsHeaded each) es ⊎ (entries_of each es ≡ []))
  IsBlockView ok_below each other = Unit

  -- A tree of at most this depth in block style: the values of a mapping or of a sequence follow one
  -- another; each begins with an entry, or those of the sequence have none; a key is no collection;
  -- and the entries in a value do not start in front of it.
  abbrev pub IsBlock : ℕ → Node → Type 0
  IsBlock zero n = ⊥
  IsBlock (suc depth) n = IsBlockView (IsBlock depth) (entries depth) (view n)

  abbrev pub IsFound : ℕ → List Entry → Option Node → Type 0
  IsFound line es found =
      (e : Entry) × IsAmong e es
      × (start e ≤ line)
      × All (λ f. (start f ≤ start e) ⊎ (line < start f)) es
      × (found ≡ some (node_of e))

  -- The node found is the last of these entries that does not start behind the line; or there is
  -- none, and it is the one found before.
  abbrev pub IsClosest : ℕ → List Entry → Option Node → Option Node → Type 0
  IsClosest line es before found =
      (All (λ e. line < start e) es × (found ≡ before)) ⊎ IsFound line es found

  pub All-lookup :
      (P : Entry → Type 0) (e : Entry) (es : List Entry) → All P es → IsAmong e es → P e
  All-lookup P e [] ps i = absurd i
  All-lookup P e (f ∷ fs) (p, ps) (inl same) = subst P (sym same) p
  All-lookup P e (f ∷ fs) (p, ps) (inr i) = All-lookup P e fs ps i

  pub IsAmong-left : (e : Entry) (es fs : List Entry) → IsAmong e es → IsAmong e (es ++ fs)
  IsAmong-left e [] fs i = absurd i
  IsAmong-left e (f ∷ es) fs (inl same) = inl same
  IsAmong-left e (f ∷ es) fs (inr i) = inr (IsAmong-left e es fs i)

  pub IsAmong-right : (e : Entry) (es fs : List Entry) → IsAmong e fs → IsAmong e (es ++ fs)
  IsAmong-right e [] fs i = i
  IsAmong-right e (f ∷ es) fs i = inr (IsAmong-right e es fs i)
