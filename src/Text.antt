-- ===== src/Text.antt =====
-- Go strings: lists of bytes, with the functions of the standard library that the source calls.
-- An index of -1 in Go is `none` here.
pub mod Runes
pub mod Decimal
pub mod Laws
use Prim.Native.Char.{code}
use nobl9_language_server.Base.{
  ℕ, zero, suc, ◌+◌, ◌≡◌, ◌↔◌, refl, String, Bool, true, false, ◌&&◌, ◌||◌, not, Option, none, some,
  List, [], ◌∷◌, ◌++◌, reverse, ◌==◌, if◌then◌else◌, drop, length, arith,
}

abbrev pub Bytes : Type 0
Bytes = List ℕ

-- A literal of the source; all of them are ASCII.
unfoldable pub codes : String → Bytes
codes String.[] = []
codes (String.◌∷◌ c s) = code c ∷ codes s

-- `==` on strings.
unfoldable pub equal : Bytes → Bytes → Bool
equal [] [] = true
equal (x ∷ xs) (y ∷ ys) = x == y && equal xs ys
equal _ _ = false

-- `strings.HasPrefix(s, p)`.
unfoldable pub has_prefix : Bytes → Bytes → Bool
has_prefix p [] = equal p []
has_prefix [] (y ∷ ys) = true
has_prefix (x ∷ xs) (y ∷ ys) = x == y && has_prefix xs ys

-- `strings.HasSuffix(s, p)`.
unfoldable pub has_suffix : Bytes → Bytes → Bool
unfolding has_prefix
has_suffix p s = has_prefix (reverse p) (reverse s)

-- `strings.Contains(s, p)`.
unfoldable pub contains : Bytes → Bytes → Bool
unfolding has_prefix
contains p [] = equal p []
contains p (y ∷ ys) = has_prefix p (y ∷ ys) || contains p ys

-- `strings.Index(s, c)` for a text `c` of one byte.
unfoldable pub index : ℕ → Bytes → Option ℕ
index c [] = none
index c (x ∷ xs) =
    if x == c then some 0 else (elim (index c xs) [ none ↦ none | some i ↦ some (suc i) ])

-- `strings.LastIndex(s, c)` for a text `c` of one byte.
unfoldable pub last_index : ℕ → Bytes → Option ℕ
last_index c [] = none
last_index c (x ∷ xs) = elim (last_index c xs) [
  | some i ↦ some (suc i)
  | none ↦ if x == c then some 0 else none
]

-- Puts a byte in front of the first part.
abbrev pub onto_first : ℕ → List Bytes → List Bytes
onto_first c [] = (c ∷ []) ∷ []
onto_first c (p ∷ ps) = (c ∷ p) ∷ ps

-- `strings.Split(s, sep)` for a separator of one byte.
unfoldable pub split : ℕ → Bytes → List Bytes
split sep [] = [] ∷ []
split sep (x ∷ xs) = let rest = split sep xs in if x == sep then [] ∷ rest else onto_first x rest

-- `strings.Count(s, c)` for a text `c` of one byte.
unfoldable pub count : ℕ → Bytes → ℕ
count c [] = 0
count c (x ∷ xs) = (if x == c then 1 else 0) + count c xs

-- `strings.Join(parts, sep)`.
unfoldable pub join : Bytes → List Bytes → Bytes
join sep [] = []
join sep (p ∷ []) = p
join sep (p ∷ q ∷ ps) = p ++ (sep ++ join sep (q ∷ ps))

-- `strings.Repeat(" ", n)`.
unfoldable pub spaces : ℕ → Bytes
spaces zero = []
spaces (suc n) = b' ' ∷ spaces n

pub equal→same : (s t : Bytes) → equal s t ≡ true → s ≡ t
unfolding equal
equal→same [] [] h = refl
equal→same [] (y ∷ t) h = cc
equal→same (x ∷ s) [] h = cc
equal→same (x ∷ s) (y ∷ t) h =
    let rest : equal s t ≡ true → s ≡ t = equal→same s t in ground (arith, rest)

pub equal_refl : (s : Bytes) → equal s s ≡ true
unfolding equal
equal_refl [] = refl
equal_refl (x ∷ s) = let rest = equal_refl s in ground (arith, rest)

pub equal_iff : (s t : Bytes) → (equal s t ≡ true) ↔ (s ≡ t)
equal_iff s t = (equal→same s t, λ same. rw (← same) (equal_refl s))
