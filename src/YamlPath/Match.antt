-- ===== src/YamlPath/Match.antt =====
-- internal/yamlpath/match.go.
pub mod Segments
use nobl9_language_server.Base.{
  Bool, true, false, ◌&&◌, ◌||◌, Option, none, some, List, [], ◌∷◌, ◌==◌, if◌then◌else◌,
}
use nobl9_language_server.Text.{Bytes, equal, has_prefix, has_suffix, onto_first}

-- The parts between the separators `.` and `[`; `strings.Count` gives their number.
unfoldable pub parts : Bytes → List Bytes
parts [] = [] ∷ []
parts (c ∷ cs) =
    let rest = parts cs in if c == b'.' || c == b'[' then [] ∷ rest else onto_first c rest

-- A part gets back the bracket that it was split at, if it ends with the other one. Looking at the
-- last byte of an empty part panics (`none`).
unfoldable pub with_bracket : Bytes → Option Bytes
unfolding has_suffix
with_bracket [] = none
with_bracket (c ∷ cs) = some (if has_suffix (b']' ∷ []) (c ∷ cs) then b'[' ∷ c ∷ cs else c ∷ cs)

unfoldable pub with_brackets : List Bytes → Option (List Bytes)
unfolding with_bracket
with_brackets [] = some []
with_brackets (p ∷ ps) = elim (with_bracket p) [
  | none ↦ none
  | some q ↦ elim (with_brackets ps) [ none ↦ none | some qs ↦ some (q ∷ qs) ]
]

unfoldable pub split_path : Bytes → Option (List Bytes)
unfolding parts with_brackets
split_path [] = some []
split_path (c ∷ cs) = with_brackets (parts (c ∷ cs))

unfoldable pub is_subscript : Bytes → Bool
unfolding has_prefix has_suffix
is_subscript s = has_prefix (b'[' ∷ []) s && has_suffix (b']' ∷ []) s

-- The tests of one round of the loop.
unfoldable pub part_matches : Bytes → Bytes → Bool
unfolding is_subscript
part_matches y c =
    equal y c
    || equal y (b'*' ∷ [])
    || equal y (b'~' ∷ [])
    || equal y (b'[' ∷ b'*' ∷ b']' ∷ []) && is_subscript c

-- The lengths, and the loop.
unfoldable pub parts_match : List Bytes → List Bytes → Bool
unfolding part_matches
parts_match [] [] = true
parts_match (y ∷ ys) (c ∷ cs) = part_matches y c && parts_match ys cs
parts_match _ _ = false

-- `Match`; `none` is a panic.
unfoldable pub match : Bytes → Bytes → Option Bool
unfolding split_path parts_match
match yaml_path concrete = elim (equal yaml_path concrete) [
  | true ↦ some true
  | false ↦ elim (split_path yaml_path) [
    | none ↦ none
    | some ys ↦ elim (split_path concrete) [ none ↦ none | some cs ↦ some (parts_match ys cs) ]
  ]
]
