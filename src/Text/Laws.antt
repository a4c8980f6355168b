-- ===== src/Text/Laws.antt =====
-- Laws of searching and splitting.
use nobl9_language_server.Base.{
  ℕ, ◌+◌, ◌<◌, ◌≡◌, refl, some, List, [], ◌∷◌, ◌++◌, ◌==◌, length, get_elem?, arith, Bool-cases,
  Option-cases, inl, inr,
}
use nobl9_language_server.Text.{Bytes, index, split, count, onto_first}

pub length-onto_first :
    (c : ℕ) (ps : List Bytes) → 0 < length ps → length (onto_first c ps) ≡ length ps
length-onto_first c [] h = elim h [ ]
length-onto_first c (p ∷ ps) h = refl

-- A text has one more part than separators.
pub length-split : (sep : ℕ) (s : Bytes) → length (split sep s) ≡ count sep s + 1
unfolding split count
length-split sep [] = refl
length-split sep (x ∷ xs) = ground (arith, length-split sep xs, length-onto_first x (split sep xs))

-- What an index names is the byte.
pub get_elem?-index : (c : ℕ) (s : Bytes) {i : ℕ} → index c s ≡ some i → get_elem? s i ≡ some c
unfolding index
get_elem?-index c [] h = cc
get_elem?-index c (x ∷ xs) {i} h = elim (Bool-cases (x == c)) [
  | inl same ↦ ground arith
  | inr other ↦ elim (Option-cases (index c xs)) [
    | inl e ↦ ground arith
    | inr (j, e) ↦ ground (arith, get_elem?-index c xs {i = j} e)
  ]
]

pub count-append : (c : ℕ) (s t : Bytes) → count c (s ++ t) ≡ count c s + count c t
unfolding count
count-append c [] t = omega arith
count-append c (x ∷ s) t = omega (arith, count-append c s t)
