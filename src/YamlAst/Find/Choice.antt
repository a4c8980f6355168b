-- ===== src/YamlAst/Find/Choice.antt =====
-- What `findClosestNode` chooses among nodes in order, and what that is worth.
use nobl9_language_server.Base.{
  All-weaken, ℕ, ◌≤◌, ◌<◌, ◌≡◌, ◌⊎◌, inl, inr, refl, sym, ◌∙◌, Bool-cases, Option, some, List, [],
  ◌∷◌, ltb, ◌==◌, All, All-append, arith, Option-cases, lt→ltb,
}
use mathlib.Core.Path.{subst}
use nobl9_language_server.YamlAst.{line_or_zero}
use nobl9_language_server.YamlAst.Find.{Ast, weigh, closest_from}
use nobl9_language_server.YamlAst.Find.Entries.{
  Entry, start, line_at, entries_of, IsAmong, IsHeaded, AreInOrder, IsFound, IsClosest, All-lookup,
  IsAmong-left, IsAmong-right,
}

module _ (ast : Ast) where
  open ast use {Node, view, line_of}

  -- One of the nodes does not start behind the line, and all behind it do.
  abbrev pub Picks : ℕ → Node → List Node → Type 0
  Picks line n [] = ⊥
  Picks line n (m ∷ ms) =
      ((n ≡ m) × (line_at ast m ≤ line) × All (λ k. line < line_at ast k) ms) ⊎ Picks line n ms

  -- What `findClosestNode` ends with.
  abbrev pub Chooses : ℕ → List Node → Option Node → Option Node → Type 0
  Chooses line ns match found =
      (All (λ n. line < line_at ast n) ns × (found ≡ match))
      ⊎ ((n : Node) × (found ≡ some n) × Picks line n ns)

  weigh_cases :
      (line : ℕ) (n : Node) (match : Option Node) (candidate : ℕ)
      (rest : Option Node → ℕ → Option Node)
      → 1 ≤ line_at ast n
      → candidate < line_at ast n
      → ((line_at ast n ≡ line) × (weigh ast line n (line_of n) match candidate rest ≡ some n))
        ⊎ ((line_at ast n < line)
            × (weigh ast line n (line_of n) match candidate rest ≡ rest (some n) (line_at ast n)))
        ⊎ ((line < line_at ast n)
            × (weigh ast line n (line_of n) match candidate rest ≡ rest match candidate))
  unfolding weigh
  weigh_cases line n match candidate rest one later = elim (Option-cases (line_of n)) [
    | inl e ↦ absurd (let h : 1 ≤ 0 = subst (λ o. 1 ≤ line_or_zero o) e one in omega arith)
    | inr (l, e) ↦
        subst
          (λ o.
            ((line_or_zero o ≡ line) × (weigh ast line n o match candidate rest ≡ some n))
            ⊎ ((line_or_zero o < line)
                × (weigh ast line n o match candidate rest ≡ rest (some n) (line_or_zero o)))
            ⊎ ((line < line_or_zero o)
                × (weigh ast line n o match candidate rest ≡ rest match candidate)))
          (sym e) (by_order l (subst (λ o. candidate < line_or_zero o) e later))
  ]
    where
      by_order :
          (l : ℕ)
          → candidate < l
          → ((l ≡ line) × (weigh ast line n (some l) match candidate rest ≡ some n))
            ⊎ ((l < line) × (weigh ast line n (some l) match candidate rest ≡ rest (some n) l))
            ⊎ ((line < l) × (weigh ast line n (some l) match candidate rest ≡ rest match candidate))
      by_order l c = elim (Bool-cases (l == line)) [
        | inl e ↦ inl (ground arith, rw e refl)
        | inr f ↦ elim (Bool-cases (ltb l line)) [
          | inl e ↦ inr (inl (ground arith, rw (f, e) (rw (lt→ltb candidate l c) refl)))
          | inr g ↦ inr (inr (ground arith, rw (f, g) refl))
        ]
      ]

  module _ (each : Node → List (Entry ast)) (line : ℕ) where
    pub closest_from-Chooses :
        (ns : List Node) (match : Option Node) (candidate : ℕ)
        → AreInOrder ast each ns
        → All (λ n. candidate < line_at ast n) ns
        → Chooses line ns match (closest_from ast line ns match candidate)
    unfolding closest_from
    closest_from-Chooses [] match candidate order later = inl (tt, refl)
    closest_from-Chooses (n ∷ ns) match candidate (one, above, _, _, order) (c, later) =
        elim (weigh_cases line n match candidate (closest_from ast line ns) one c) [
          | inl (same, e) ↦ inr (
            n,
            e,
            inl (
              refl,
              omega arith,
              All-weaken (λ m. line_at ast n < line_at ast m) (λ m. line < line_at ast m)
                  (λ m h. omega arith) ns above,
            ),
          )
          | inr (inl (less, e)) ↦
              elim (closest_from-Chooses ns (some n) (line_at ast n) order above) [
                | inl (behind, kept) ↦ inr (n, e ∙ kept, inl (refl, omega arith, behind))
                | inr (m, found, picks) ↦ inr (m, e ∙ found, inr picks)
              ]
          | inr (inr (greater, e)) ↦ elim (closest_from-Chooses ns match candidate order later) [
            | inl (behind, kept) ↦ inl ((greater, behind), e ∙ kept)
            | inr (m, found, picks) ↦ inr (m, e ∙ found, inr picks)
          ]
        ]

    pub entries_behind :
        (ns : List Node)
        → AreInOrder ast each ns
        → All (λ n. line < line_at ast n) ns
        → All (λ e. line < start ast e) (entries_of ast each ns)
    entries_behind [] order h = tt
    entries_behind (n ∷ ns) (_, _, from, _, order) (h, hs) =
        All-append (λ e. line < start ast e) (each n) (entries_of ast each ns)
          (All-weaken (λ e. line_at ast n ≤ start ast e) (λ e. line < start ast e)
            (λ e le. omega arith) (each n) from)
          (entries_behind ns order hs)

    pub Picks-lookup :
        (P : Node → Type 0) (n : Node) (ns : List Node) → Picks line n ns → All P ns → P n
    Picks-lookup P n [] i ps = absurd i
    Picks-lookup P n (m ∷ ms) (inl (same, _, _)) (p, ps) = subst P (sym same) p
    Picks-lookup P n (m ∷ ms) (inr i) (p, ps) = Picks-lookup P n ms i ps

    pub Picks-le : (n : Node) (ns : List Node) → Picks line n ns → line_at ast n ≤ line
    Picks-le n [] i = absurd i
    Picks-le n (m ∷ ms) (inl (same, le, _)) = subst (λ k. line_at ast k ≤ line) (sym same) le
    Picks-le n (m ∷ ms) (inr i) = Picks-le n ms i

    pub Picks-IsAmong :
        (e : (Entry ast)) (n : Node) (ns : List Node)
        → Picks line n ns
        → IsAmong ast e (each n)
        → IsAmong ast e (entries_of ast each ns)
    Picks-IsAmong e n [] i among = absurd i
    Picks-IsAmong e n (m ∷ ms) (inl (same, _, _)) among =
        IsAmong-left ast e (each m) (entries_of ast each ms)
          (subst (λ k. IsAmong ast e (each k)) same among)
    Picks-IsAmong e n (m ∷ ms) (inr i) among =
        IsAmong-right ast e (each m) (entries_of ast each ms) (Picks-IsAmong e n ms i among)

    pub IsFound-list :
        (n : Node) (ns : List Node) (found : Option Node)
        → Picks line n ns
        → AreInOrder ast each ns
        → IsFound ast line (each n) found
        → IsFound ast line (entries_of ast each ns) found
    IsFound-list n [] found i order h = absurd i
    IsFound-list n (m ∷ ms) found (inl (same, _, behind)) (_, _, _, _, order) h =
        let (e, among, le, all, is) = subst (λ k. IsFound ast line (each k) found) same h in
        (
          e,
          IsAmong-left ast e (each m) (entries_of ast each ms) among,
          le,
          All-append (λ f. (start ast f ≤ start ast e) ⊎ (line < start ast f)) (each m)
              (entries_of ast each ms) all
              (All-weaken (λ f. line < start ast f)
                (λ f. (start ast f ≤ start ast e) ⊎ (line < start ast f)) (λ f. inr)
                (entries_of ast each ms) (entries_behind ms order behind)),
          is,
        )
    IsFound-list n (m ∷ ms) found (inr i) (_, _, _, ahead, order) h =
        let (e, among, le, all, is) = IsFound-list n ms found i order h in
        (
          e,
          IsAmong-right ast e (each m) (entries_of ast each ms) among,
          le,
          All-append (λ f. (start ast f ≤ start ast e) ⊎ (line < start ast f)) (each m)
              (entries_of ast each ms)
              (All-weaken (λ f. All (λ g. start ast f < start ast g) (entries_of ast each ms))
                (λ f. (start ast f ≤ start ast e) ⊎ (line < start ast f))
                (λ f less.
                  let h : start ast f < start ast e =
                    All-lookup ast (λ g. start ast f < start ast g) e (entries_of ast each ms) less
                      among in
                  inl (omega arith))
                (each m) ahead)
              all,
          is,
        )

    -- A node with an entry on its line has a closest one, if that line is not behind.
    pub headed-IsFound :
        (n : Node) (before found : Option Node)
        → IsHeaded ast each n
        → line_at ast n ≤ line
        → IsClosest ast line (each n) before found
        → IsFound ast line (each n) found
    headed-IsFound n before found (m, among) le (inl (behind, _)) = absurd (
        let h : line < line_at ast n =
          All-lookup ast (λ e. line < start ast e) (line_at ast n, m) (each n) behind among in
        omega arith)
    headed-IsFound n before found head le (inr h) = h

    pub bare-IsClosest :
        (n : Node) (ns : List Node) (before found : Option Node)
        → Picks line n ns
        → entries_of ast each ns ≡ []
        → IsClosest ast line (each n) before found
        → IsClosest ast line (entries_of ast each ns) before found
    bare-IsClosest n ns before found i none_at_all (inl (_, same)) =
        inl (subst (λ es. All (λ e. line < start ast e) es) (sym none_at_all) tt, same)
    bare-IsClosest n ns before found i none_at_all (inr (e, among, _, _, _)) =
        absurd (subst (λ es. IsAmong ast e es) none_at_all (Picks-IsAmong e n ns i among))
