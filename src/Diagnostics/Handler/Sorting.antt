-- ===== src/Diagnostics/Handler/Sorting.antt =====
-- The diagnostics that the handler publishes are sorted.
use nobl9_language_server.Base.{
  ◌≤◌, ◌<◌, ◌≡◌, ◌⊎◌, inl, inr, true, false, List, [], ◌∷◌, if_intro, All, arith,
}
use nobl9_language_server.Messages.{Diagnostic, Position}
use nobl9_language_server.Diagnostics.Handler.{is_before, insert, sort}

-- In the order of lines, and of characters within a line.
abbrev pub Precedes : Position → Position → Type 0
Precedes p q = (p.line < q.line) ⊎ ((p.line ≡ q.line) × (p.character ≤ q.character))

is_before-Precedes : (p q : Position) → is_before p q ≡ true → Precedes p q
unfolding is_before
is_before-Precedes p q h = ground arith

is_before_total : (p q : Position) → is_before p q ≡ false → Precedes q p
unfolding is_before
is_before_total p q h = ground arith

Precedes-trans : (p q r : Position) → Precedes p q → Precedes q r → Precedes p r
Precedes-trans p q r (inl h) (inl k) = inl (omega arith)
Precedes-trans p q r (inl h) (inr k) = inl (omega arith)
Precedes-trans p q r (inr h) (inl k) = inl (omega arith)
Precedes-trans p q r (inr h) (inr k) = inr (omega arith, omega arith)

abbrev pub Before : Diagnostic → Diagnostic → Type 0
Before d e = Precedes d.range.start e.range.start

abbrev pub IsSorted : List Diagnostic → Type 0
IsSorted [] = Unit
IsSorted (d ∷ ds) = All (Before d) ds × IsSorted ds

insert-All :
    (P : Diagnostic → Type 0) (d : Diagnostic) (es : List Diagnostic)
    → P d
    → All P es
    → All P (insert d es)
unfolding insert
insert-All P d [] here h = (here, tt)
insert-All P d (e ∷ es) here (first, h) =
    if_intro {A = List Diagnostic} (λ s. All P s) (is_before d.range.start e.range.start)
      (λ _. (here, (first, h))) (λ _. (first, insert-All P d es here h))

All-after :
    (d e : Diagnostic) (es : List Diagnostic) → Before d e → All (Before e) es → All (Before d) es
All-after d e [] first h = tt
All-after d e (x ∷ es) first (here, h) =
    (Precedes-trans d.range.start e.range.start x.range.start first here, All-after d e es first h)

insert-IsSorted : (d : Diagnostic) (es : List Diagnostic) → IsSorted es → IsSorted (insert d es)
unfolding insert
insert-IsSorted d [] h = (tt, tt)
insert-IsSorted d (e ∷ es) (least, h) =
    if_intro {A = List Diagnostic} (λ s. IsSorted s) (is_before d.range.start e.range.start)
      (λ yes.
        let first = is_before-Precedes d.range.start e.range.start yes in
        ((first, All-after d e es first least), (least, h)))
      (λ no. (
        insert-All (Before e) d es (is_before_total d.range.start e.range.start no) least,
        insert-IsSorted d es h,
      ))

pub sort-IsSorted : (ds : List Diagnostic) → IsSorted (sort ds)
unfolding sort
sort-IsSorted [] = tt
sort-IsSorted (d ∷ ds) = insert-IsSorted d (sort ds) (sort-IsSorted ds)
