-- ===== src/Files/Simple/Prefix.antt =====
-- What `splitListDocument` takes for the index of a line.
use nobl9_language_server.Base.{
  ℕ, suc, ◌-◌, ◌<◌, ◌≤◌, ◌≡◌, ◌≢◌, refl, ap, ◌∙◌, if◌then◌else◌, Option, none, some, [], ◌∷◌, ◌++◌,
  take, drop, All, Exec, ok, err, panic, out_of_fuel, missing_bracket, if_intro, ltb, length, arith,
}
use nobl9_language_server.Base.{◌==◌}
use nobl9_language_server.Text.{Bytes, index}
use nobl9_language_server.Files.Simple.{list_prefix}
use nobl9_language_server.Files.Simple.Splitting.{}

-- Behind the first two bytes of a path and in front of its first closing bracket stands `q`.
abbrev pub HasIndex : Bytes → Bytes → Type 0
HasIndex path q =
    (before : Bytes) × (rest : Bytes) × (path ≡ before ++ b']' ∷ rest)
    × All (λ c. c ≢ b']') before
    × (2 ≤ length before)
    × (q ≡ drop 2 before)

-- The first closing bracket of a path is the first or the second byte.
abbrev pub IsEarly : Bytes → Type 0
IsEarly path =
    (before : Bytes) × (rest : Bytes) × (path ≡ before ++ b']' ∷ rest) × (length before < 2)

-- What the prefix of a path is.
abbrev pub IsPrefix : Bytes → Exec Bytes → Type 0
IsPrefix path (ok q) = HasIndex path q
IsPrefix path (err e) = (e ≡ missing_bracket) × All (λ c. c ≢ b']') path
IsPrefix path panic = IsEarly path
IsPrefix path out_of_fuel = ⊥

-- What is in front of the byte that `index` finds.
abbrev Splits : ℕ → Bytes → Option ℕ → Type 0
Splits c s none = All (λ x. x ≢ c) s
Splits c s (some i) =
    (before : Bytes) × (rest : Bytes) × (s ≡ before ++ c ∷ rest)
    × All (λ x. x ≢ c) before
    × (length before ≡ i)

cons-Splits :
    (c x : ℕ) (s : Bytes) (o : Option ℕ)
    → x ≢ c
    → Splits c s o
    → Splits c (x ∷ s) (elim o [ none ↦ none | some i ↦ some (suc i) ])
cons-Splits c x s none other h = (other, h)
cons-Splits c x s (some i) other (before, rest, e, others, n) =
    (x ∷ before, rest, ap (λ t. x ∷ t) e, (other, others), ap suc n)

index-Splits : (c : ℕ) (s : Bytes) → Splits c s (index c s)
unfolding index
index-Splits c [] = tt
index-Splits c (x ∷ s) =
    if_intro (Splits c (x ∷ s)) (x == c) (λ e. ([], s, ap (λ y. y ∷ s) (ground arith), tt, refl))
      (λ e. cons-Splits c x s (index c s) (ground arith) (index-Splits c s))

take-front : (m rest : Bytes) → take (length m) (m ++ rest) ≡ m
take-front [] rest = refl
take-front (x ∷ m) rest = ap (λ t. x ∷ t) (take-front m rest)

prefix_text :
    (before rest : Bytes)
    → 2 ≤ length before
    → take (length before - 2) (drop 2 (before ++ rest)) ≡ drop 2 before
prefix_text [] rest h = absurd (omega arith)
prefix_text (a ∷ []) rest h = absurd (omega arith)
prefix_text (a ∷ b ∷ m) rest h = ap (λ n. take n (m ++ rest)) (omega arith) ∙ take-front m rest

pub list_prefix-IsPrefix : (path : Bytes) → IsPrefix path (list_prefix path)
unfolding list_prefix
list_prefix-IsPrefix path = go (index b']' path) (index-Splits b']' path)
  where
    go :
        (o : Option ℕ)
        → Splits b']' path o
        → IsPrefix path (elim o [
          | none ↦ err missing_bracket
          | some k ↦ if ltb k 2 then panic else ok (take (k - 2) (drop 2 path))
        ])
    go none h = (refl, h)
    go (some k) (before, rest, e, others, n) =
        if_intro (IsPrefix path) (ltb k 2) (λ early. (before, rest, e, ground arith))
          (λ late. (
            before,
            rest,
            e,
            others,
            ground arith,
            rw (e, ← n) (prefix_text before (b']' ∷ rest) (ground arith)),
          ))
