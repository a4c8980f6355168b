-- ===== src/YamlPath/Match/Segments.antt =====
-- What `Match` decides on paths made of segments.
use nobl9_language_server.Base.{
  ◌&&◌, ◌≡◌, ◌≢◌, ℕ, refl, sym, ap, ◌∙◌, inl, inr, Bool, true, false, ◌||◌, Option, none, some,
  List, [], ◌∷◌, ◌++◌, reverse, map, ◌==◌, All, Bool-cases, arith,
}
use mathlib.Core.Path.{subst, ap₂}
use mathlib.Core.List.{reverse-append}
use nobl9_language_server.Text.{
  Bytes, equal, equal_iff, equal_refl, has_suffix, has_prefix, onto_first,
}
use nobl9_language_server.YamlPath.Match.{
  parts, with_bracket, with_brackets, is_subscript, split_path, part_matches, parts_match, match,
}

-- A key, or what stands between brackets.
pub data Segment : Type 0 where
  key subscript : Bytes → Segment

-- The segments behind the first one.
abbrev pub tail_text : List Segment → Bytes
tail_text [] = []
tail_text (key k ∷ ss) = b'.' ∷ (k ++ tail_text ss)
tail_text (subscript i ∷ ss) = b'[' ∷ ((i ++ b']' ∷ []) ++ tail_text ss)

-- A path: its first key, and the segments behind it.
abbrev pub path_text : Bytes → List Segment → Bytes
path_text k ss = k ++ tail_text ss

abbrev pub segment_text : Segment → Bytes
segment_text (key k) = k
segment_text (subscript i) = b'[' ∷ (i ++ b']' ∷ [])

abbrev raw : Segment → Bytes
raw (key k) = k
raw (subscript i) = i ++ b']' ∷ []

abbrev pub IsFree : Bytes → Type 0
IsFree = All (λ c. (c ≢ b'.') × (c ≢ b'['))

-- A key is not empty and does not end in a bracket; neither has a separator in it.
abbrev pub IsSegment : Segment → Type 0
IsSegment (key k) = (k ≢ []) × IsFree k × (has_suffix (b']' ∷ []) k ≡ false)
IsSegment (subscript i) = IsFree i

separator_test : (c : ℕ) → (c ≢ b'.') × (c ≢ b'[') → (c == b'.' || c == b'[') ≡ false
separator_test c (dot, bracket) = ground arith

parts-free :
    (k rest : Bytes) (ps : List Bytes)
    → IsFree k
    → parts rest ≡ [] ∷ ps
    → parts (k ++ rest) ≡ k ∷ ps
unfolding parts
parts-free [] rest ps free e = e
parts-free (c ∷ k) rest ps (here, free) e =
    rw (separator_test c here) (ap (onto_first c) (parts-free k rest ps free e))

raw-IsFree : (s : Segment) → IsSegment s → IsFree (raw s)
raw-IsFree (key k) h = h.1
raw-IsFree (subscript i) h = go i h
  where
    go : (j : Bytes) → IsFree j → IsFree (j ++ b']' ∷ [])
    go [] h' = ((omega arith, omega arith), tt)
    go (c ∷ j) (here, h') = (here, go j h')

parts-tail_text : (ss : List Segment) → All IsSegment ss → parts (tail_text ss) ≡ [] ∷ map raw ss
unfolding parts
parts-tail_text [] h = refl
parts-tail_text (key k ∷ ss) (here, h) =
    ap (λ ps. [] ∷ ps)
      (parts-free k (tail_text ss) (map raw ss) (raw-IsFree (key k) here) (parts-tail_text ss h))
parts-tail_text (subscript i ∷ ss) (here, h) =
    ap (λ ps. [] ∷ ps)
      (parts-free (i ++ b']' ∷ []) (tail_text ss) (map raw ss) (raw-IsFree (subscript i) here)
        (parts-tail_text ss h))

bracket_behind : (i : Bytes) → has_suffix (b']' ∷ []) (i ++ b']' ∷ []) ≡ true
unfolding has_suffix has_prefix equal
bracket_behind i = rw (reverse-append i (b']' ∷ [])) (has_prefix-nil (reverse i))
  where
    has_prefix-nil : (t : Bytes) → has_prefix (b']' ∷ []) (b']' ∷ t) ≡ true
    has_prefix-nil [] = refl
    has_prefix-nil (c ∷ t) = refl

with_bracket-raw : (s : Segment) → IsSegment s → with_bracket (raw s) ≡ some (segment_text s)
unfolding with_bracket
with_bracket-raw (key []) (some_key, free, no_bracket) = absurd (some_key refl)
with_bracket-raw (key (c ∷ k)) (some_key, free, no_bracket) = rw no_bracket refl
with_bracket-raw (subscript []) h = rw (bracket_behind []) refl
with_bracket-raw (subscript (c ∷ i)) h = rw (bracket_behind (c ∷ i)) refl

with_brackets-raw :
    (ss : List Segment) → All IsSegment ss → with_brackets (map raw ss) ≡ some (map segment_text ss)
unfolding with_brackets
with_brackets-raw [] h = refl
with_brackets-raw (s ∷ ss) (here, h) =
    rw (with_bracket-raw s here, with_brackets) (rw (with_brackets-raw ss h) refl)

-- The parts that `splitPath` makes of a path are its segments, each subscript with its brackets.
split_path-path_text :
    (k : Bytes) (ss : List Segment)
    → IsSegment (key k)
    → All IsSegment ss
    → split_path (path_text k ss) ≡ some (k ∷ map segment_text ss)
unfolding split_path
split_path-path_text [] ss (some_key, free, no_bracket) hs = absurd (some_key refl)
split_path-path_text (c ∷ k) ss h hs =
    ap with_brackets (parts-free (c ∷ k) (tail_text ss) (map raw ss) h.1 (parts-tail_text ss hs))
    ∙ with_brackets-raw (key (c ∷ k) ∷ ss) (h, hs)

part_matches-same : (s : Bytes) → part_matches s s ≡ true
unfolding part_matches
part_matches-same s = rw (equal_refl s) refl

parts_match-same : (ps : List Bytes) → parts_match ps ps ≡ true
unfolding parts_match
parts_match-same [] = refl
parts_match-same (p ∷ ps) = rw (part_matches-same p) (parts_match-same ps)

-- The result of the comparison that `Match` begins with.
match_split :
    (y c : Bytes) (ys cs : List Bytes)
    → split_path y ≡ some ys
    → split_path c ≡ some cs
    → match y c ≡ some (equal y c || parts_match ys cs)
unfolding match
match_split y c ys cs h k = elim (Bool-cases (equal y c)) [
  | inl same ↦ rw (same, match) refl
  | inr other ↦ rw (other, match) (rw h (rw k refl))
]

same_parts : {ps qs : List Bytes} → ◌≡◌ {A = Option (List Bytes)} (some ps) (some qs) → ps ≡ qs
same_parts {ps} e = ap (λ o. elim o [ none ↦ ps | some xs ↦ xs ]) e

or_absorb : (a b : Bool) → (a ≡ true → b ≡ true) → (a || b) ≡ b
or_absorb true b h = sym (h refl)
or_absorb false b h = refl

-- Whether a segment of a pattern fits one of a path: the keys `*` and `~` fit all, the subscript `*`
-- all subscripts, and others only themselves.
abbrev pub segment_fits : Segment → Segment → Bool
segment_fits (key y) (key c) = equal y (b'*' ∷ []) || equal y (b'~' ∷ []) || equal y c
segment_fits (key y) (subscript j) = equal y (b'*' ∷ []) || equal y (b'~' ∷ [])
segment_fits (subscript i) (key c) = false
segment_fits (subscript i) (subscript j) = equal i (b'*' ∷ []) || equal i j

-- As many segments, and each fits.
abbrev pub fits : List Segment → List Segment → Bool
fits [] [] = true
fits (y ∷ ys) (c ∷ cs) = segment_fits y c && fits ys cs
fits _ _ = false

and_false : (b : Bool) → (b && false) ≡ false
and_false true = refl
and_false false = refl

or_swap : (a b c d : Bool) → d ≡ false → (a || b || c || d) ≡ (b || c || a)
or_swap true true c d e = refl
or_swap true false true d e = refl
or_swap true false false d e = refl
or_swap false true c d e = refl
or_swap false false true d e = refl
or_swap false false false d e = e

equal-nil_bracket : (j : Bytes) → equal [] (j ++ b']' ∷ []) ≡ false
unfolding equal
equal-nil_bracket [] = refl
equal-nil_bracket (d ∷ j) = refl

equal-bracket_nil : (i : Bytes) → equal (i ++ b']' ∷ []) [] ≡ false
unfolding equal
equal-bracket_nil [] = refl
equal-bracket_nil (c ∷ i) = refl

equal-brackets : (i j : Bytes) → equal (i ++ b']' ∷ []) (j ++ b']' ∷ []) ≡ equal i j
unfolding equal
equal-brackets [] [] = refl
equal-brackets [] (d ∷ j) = ap (λ b. b']' == d && b) (equal-nil_bracket j) ∙ and_false (b']' == d)
equal-brackets (c ∷ i) [] = ap (λ b. c == b']' && b) (equal-bracket_nil i) ∙ and_false (c == b']')
equal-brackets (c ∷ i) (d ∷ j) = ap (λ b. c == d && b) (equal-brackets i j)

-- A key is no text that begins with a bracket.
key-bracket : (k t : Bytes) → IsFree k → equal k (b'[' ∷ t) ≡ false
unfolding equal
key-bracket [] t free = refl
key-bracket (c ∷ k) t ((dot, bracket), free) = ground arith

bracket-key : (k t : Bytes) → IsFree k → equal (b'[' ∷ t) k ≡ false
unfolding equal
bracket-key [] t free = refl
bracket-key (c ∷ k) t ((dot, bracket), free) = ground arith

key-no_subscript : (k : Bytes) → IsFree k → is_subscript k ≡ false
unfolding is_subscript has_prefix equal
key-no_subscript [] free = refl
key-no_subscript (c ∷ k) ((dot, bracket), free) = ground arith

subscript-is_subscript : (i : Bytes) → is_subscript (b'[' ∷ (i ++ b']' ∷ [])) ≡ true
unfolding is_subscript has_prefix equal
subscript-is_subscript i =
    ap₂ (λ a b. a && b) (any_prefix (i ++ b']' ∷ [])) (bracket_behind (b'[' ∷ i))
  where
    any_prefix : (t : Bytes) → has_prefix [] t ≡ true
    any_prefix [] = refl
    any_prefix (c ∷ t) = refl

-- The tests of a round, on their values.
abbrev tests : Bool → Bool → Bool → Bool → Bool → Bool
tests a b c d e = a || b || c || d && e

tests_of :
    {a b c d e a' b' c' d' e' : Bool}
    → a ≡ a'
    → b ≡ b'
    → c ≡ c'
    → d ≡ d'
    → e ≡ e'
    → tests a b c d e ≡ tests a' b' c' d' e'
tests_of p q r s t = rw (p, q, r, s, t) refl

tests_key : (b c e : Bool) → tests false b c false e ≡ (b || c)
tests_key true c e = refl
tests_key false true e = refl
tests_key false false e = refl

tests_subscript : (a d : Bool) → tests a false false d true ≡ (d || a)
tests_subscript true true = refl
tests_subscript true false = refl
tests_subscript false true = refl
tests_subscript false false = refl

part_matches-segment_fits :
    (s t : Segment)
    → IsSegment s
    → IsSegment t
    → part_matches (segment_text s) (segment_text t) ≡ segment_fits s t
unfolding part_matches equal
part_matches-segment_fits (key y) (key c) hy hc =
    or_swap (equal y c) (equal y (b'*' ∷ [])) (equal y (b'~' ∷ [])) _
      (rw (key-bracket y (b'*' ∷ b']' ∷ []) hy.1) refl)
part_matches-segment_fits (key y) (subscript j) hy hj =
    tests_of (key-bracket y (j ++ b']' ∷ []) hy.1) refl refl (key-bracket y (b'*' ∷ b']' ∷ []) hy.1)
      (subscript-is_subscript j)
    ∙ tests_key (equal y (b'*' ∷ [])) (equal y (b'~' ∷ [])) true
part_matches-segment_fits (subscript i) (key c) hi hc =
    tests_of (bracket-key c (i ++ b']' ∷ []) hc.1) refl refl refl (key-no_subscript c hc.1)
    ∙ and_false _
part_matches-segment_fits (subscript i) (subscript j) hi hj =
    tests_of (equal-brackets i j) refl refl (equal-brackets i (b'*' ∷ []))
      (subscript-is_subscript j)
    ∙ tests_subscript (equal i j) (equal i (b'*' ∷ []))

parts_match-fits :
    (ss ts : List Segment)
    → All IsSegment ss
    → All IsSegment ts
    → parts_match (map segment_text ss) (map segment_text ts) ≡ fits ss ts
unfolding parts_match
parts_match-fits [] [] hs ht = refl
parts_match-fits [] (t ∷ ts) hs ht = refl
parts_match-fits (s ∷ ss) [] hs ht = refl
parts_match-fits (s ∷ ss) (t ∷ ts) (h, hs) (k, ht) =
    ap₂ (λ a b. a && b) (part_matches-segment_fits s t h k) (parts_match-fits ss ts hs ht)

-- On paths that begin with a key and have no empty keys and no keys that end in a bracket or have a
-- separator in them, `Match` does not panic, and holds exactly if the paths have as many segments and
-- each segment of the first fits that of the second: it is the same, or the key `*` or `~`, or `[*]`
-- against a subscript.
pub match-path_text :
    (y c : Bytes) (ys cs : List Segment)
    → IsSegment (key y)
    → All IsSegment ys
    → IsSegment (key c)
    → All IsSegment cs
    → match (path_text y ys) (path_text c cs) ≡ some (fits (key y ∷ ys) (key c ∷ cs))
match-path_text y c ys cs hy hys hc hcs =
    let left = split_path-path_text y ys hy hys in
    let right = split_path-path_text c cs hc hcs in
    match_split (path_text y ys) (path_text c cs) (y ∷ map segment_text ys)
      (c ∷ map segment_text cs) left right
    ∙ ap some (
        or_absorb (equal (path_text y ys) (path_text c cs))
          (parts_match (y ∷ map segment_text ys) (c ∷ map segment_text cs))
          (λ e.
            let texts = (equal_iff (path_text y ys) (path_text c cs)).0 e in
            let parts_same = same_parts (sym left ∙ ap split_path texts ∙ right) in
            subst (λ ps. parts_match (y ∷ map segment_text ys) ps ≡ true) parts_same
              (parts_match-same (y ∷ map segment_text ys))))
    ∙ ap some (parts_match-fits (key y ∷ ys) (key c ∷ cs) (hy, hys) (hc, hcs))
