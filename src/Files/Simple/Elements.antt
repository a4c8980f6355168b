-- ===== src/Files/Simple/Elements.antt =====
-- Where `splitListDocument` begins a document.
use nobl9_language_server.Base.{
  ℕ, ◌<◌, ◌≤◌, ◌≡◌, ◌≢◌, refl, ◌||◌, true, false, Option, none, some, List, [], ◌∷◌, ◌++◌, All, ◌⊎◌,
  inl, inr, Exec, ok, err, panic, out_of_fuel, missing_bracket, ◌>>=◌, if_intro, ltb, ltb→lt,
  length, arith,
}
use mathlib.Core.Path.{subst}
use nobl9_language_server.Text.{Bytes, equal, equal_refl, equal→same}
use nobl9_language_server.YamlAstSimple.Lines.{Line, Document}
use nobl9_language_server.YamlAstSimple.Origin.{all_lines}
use nobl9_language_server.Files.Simple.{
  append_line, next_document, split_at_prefix, split_lines, split_list_document, list_prefix,
  is_blank,
}
use nobl9_language_server.Files.Simple.Splitting.{AreAdjacent, Divides, split_list_document-Divides}
use nobl9_language_server.Files.Simple.Prefix.{HasIndex, IsEarly, IsPrefix, list_prefix-IsPrefix}

-- A line whose path has four bytes or more.
abbrev pub IsLong : Line → Type 0
IsLong l = 4 ≤ length l.path

-- Behind a line with the index `e`, or no index yet, these lines have no other index: a short line
-- has none. `e'` is the last one.
abbrev pub StaysTo : Bytes → List Line → Bytes → Type 0
StaysTo e [] e' = e' ≡ e
StaysTo e (l ∷ ls) e' =
    ((length l.path < 4) × StaysTo e ls e')
    ⊎ ((q : Bytes) × IsLong l × HasIndex l.path q × ((e ≡ []) ⊎ (e ≡ q)) × StaysTo q ls e')

-- The lines begin with a long one whose index is another one than `e`, and stay to it.
abbrev pub Begins : Bytes → List Line → Bytes → Type 0
Begins e [] e' = ⊥
Begins e (l ∷ ls) e' =
    (q : Bytes) × IsLong l × HasIndex l.path q × (e ≢ []) × (e ≢ q) × StaysTo q ls e'

-- Each document begins where the index changes, and stays to its index.
abbrev pub AreElements : Bytes → List Document → Type 0
AreElements e [] = Unit
AreElements e (d ∷ ds) = (e' : Bytes) × Begins e d.lines e' × AreElements e' ds

-- The first line of which the path is read and has no index is like this.
abbrev pub FailsAt : (Bytes → Type 0) → List Line → Type 0
FailsAt P [] = ⊥
FailsAt P (l ∷ ls) =
    (IsLong l × P l.path)
    ⊎ (((length l.path < 4) ⊎ ((q : Bytes) × HasIndex l.path q)) × FailsAt P ls)

-- How the lines of a document came to be in it: from its start, or from a change of the index `e`.
abbrev Gathers : Option Bytes → List Line → Bytes → Type 0
Gathers none ls e' = StaysTo [] ls e'
Gathers (some e) ls e' = Begins e ls e'

-- What the loop returns, on the lines that are left.
abbrev Follow : Option Bytes → List Line → Exec (List Document) → Type 0
Follow o ls (ok []) = ⊥
Follow o ls (ok (d ∷ ds)) = (e' : Bytes) × Gathers o d.lines e' × AreElements e' ds
Follow o ls (err x) = (x ≡ missing_bracket) × FailsAt (All (λ c. c ≢ b']')) ls
Follow o ls panic = FailsAt IsEarly ls
Follow o ls out_of_fuel = ⊥

StaysTo-short :
    (e : Bytes) (ls : List Line) (l : Line) (e' : Bytes)
    → StaysTo e ls e'
    → length l.path < 4
    → StaysTo e (ls ++ l ∷ []) e'
StaysTo-short e [] l e' h short = inl (short, h)
StaysTo-short e (m ∷ ls) l e' (inl (s, h)) short = inl (s, StaysTo-short e ls l e' h short)
StaysTo-short e (m ∷ ls) l e' (inr (q, long, i, same, h)) short =
    inr (q, long, i, same, StaysTo-short q ls l e' h short)

-- A long line with the index that the lines before it have, or the first one with an index.
abbrev Joins : Bytes → Line → Bytes → Type 0
Joins e l q = IsLong l × HasIndex l.path q × ((e ≡ []) ⊎ (e ≡ q))

StaysTo-long :
    (e : Bytes) (ls : List Line) (l : Line) {e' q : Bytes}
    → StaysTo e ls e'
    → Joins e' l q
    → StaysTo e (ls ++ l ∷ []) q
StaysTo-long e [] l {e'} {q} h (long, i, same) =
    inr (q, long, i, subst (λ x. (x ≡ []) ⊎ (x ≡ q)) h same, refl)
StaysTo-long e (m ∷ ls) l (inl (s, h)) join = inl (s, StaysTo-long e ls l h join)
StaysTo-long e (m ∷ ls) l (inr (p, long, i, same, h)) join =
    inr (p, long, i, same, StaysTo-long p ls l h join)

Gathers-short :
    (o : Option Bytes) (ls : List Line) (l : Line) (e' : Bytes)
    → Gathers o ls e'
    → length l.path < 4
    → Gathers o (ls ++ l ∷ []) e'
Gathers-short none ls l e' h short = StaysTo-short [] ls l e' h short
Gathers-short (some e) [] l e' h short = elim h [ ]
Gathers-short (some e) (m ∷ ls) l e' (q, long, i, some', other, h) short =
    (q, long, i, some', other, StaysTo-short q ls l e' h short)

Gathers-long :
    (o : Option Bytes) (ls : List Line) (l : Line) {e' q : Bytes}
    → Gathers o ls e'
    → Joins e' l q
    → Gathers o (ls ++ l ∷ []) q
Gathers-long none ls l h join = StaysTo-long [] ls l h join
Gathers-long (some e) [] l h join = elim h [ ]
Gathers-long (some e) (m ∷ ls) l (p, long, i, some', other, h) join =
    (p, long, i, some', other, StaysTo-long p ls l h join)

-- A document is finished in front of those that begin with another index.
finish :
    (o : Option Bytes) (current : Document) (ls : List Line) (e : Bytes) (r : Exec (List Document))
    → Gathers o current.lines e
    → Follow (some e) ls r
    → Follow o ls (r >>= λ docs. ok (current ∷ docs))
finish o current ls e (ok (d ∷ ds)) h (e', begins, others) = (e, h, (e', begins, others))
finish o current ls e (ok []) h f = elim f [ ]
finish o current ls e (err x) h f = f
finish o current ls e panic h f = f
finish o current ls e out_of_fuel h f = elim f [ ]

-- A line that fails behind one that does not.
later-Follow :
    (o : Option Bytes) (l : Line) (ls : List Line) (r : Exec (List Document))
    → (length l.path < 4) ⊎ ((q : Bytes) × HasIndex l.path q)
    → Follow o ls r
    → Follow o (l ∷ ls) r
later-Follow o l ls (ok (d ∷ ds)) read h = h
later-Follow o l ls (err x) read (e, h) = (e, inr (read, h))
later-Follow o l ls panic read h = inr (read, h)
later-Follow o l ls (ok []) read h = elim h [ ]
later-Follow o l ls out_of_fuel read h = elim h [ ]

choice :
    (prefix q : Bytes) → is_blank prefix || equal prefix q ≡ true → (prefix ≡ []) ⊎ (prefix ≡ q)
choice [] q h = inl refl
choice (c ∷ cs) q h = inr (equal→same (c ∷ cs) q h)

choice_not :
    (prefix q : Bytes) → is_blank prefix || equal prefix q ≡ false → (prefix ≢ []) × (prefix ≢ q)
choice_not [] q h = absurd (cc h)
choice_not (c ∷ cs) q h =
    (λ e. cc e, λ e. cc (h, subst (λ t. equal (c ∷ cs) t ≡ true) e (equal_refl (c ∷ cs))))

split_at_prefix-Follow :
    (o : Option Bytes) (e : Bytes) (current : Document) (l : Line) (ls : List Line) (r : Exec Bytes)
    → IsLong l
    → Gathers o current.lines e
    → IsPrefix l.path r
    → ((o' : Option Bytes) (q : Bytes) (d : Document)
        → Gathers o' d.lines q
        → Follow o' ls (split_lines q d ls))
    → Follow o (l ∷ ls) (split_at_prefix (λ q d. split_lines q d ls) e current l r)
unfolding split_at_prefix
split_at_prefix-Follow o e current l ls (ok q) long h i later =
    if_intro {A = Exec (List Document)} (Follow o (l ∷ ls)) (is_blank e || equal e q)
      (λ same. later-Follow o l ls (split_lines q (append_line current l) ls) (inr (q, i)) (
        later o q (append_line current l)
          (Gathers-long o current.lines l h (long, i, choice e q same))))
      (λ new.
        let (begun, other) = choice_not e q new in
        let rest = split_lines q (next_document current l) ls in
        later-Follow o l ls (rest >>= λ docs. ok (current ∷ docs)) (inr (q, i)) (
          finish o current ls e rest h
            (later (some e) q (next_document current l) (q, long, i, begun, other, refl))))
split_at_prefix-Follow o e current l ls (err x) long h (same, lacks) later =
    (same, inl (long, lacks))
split_at_prefix-Follow o e current l ls panic long h early later = inl (long, early)
split_at_prefix-Follow o e current l ls out_of_fuel long h i later = elim i [ ]

split_lines-Follow :
    (o : Option Bytes) (e : Bytes) (current : Document) (ls : List Line)
    → Gathers o current.lines e
    → Follow o ls (split_lines e current ls)
unfolding split_lines
split_lines-Follow o e current [] h = (e, h, tt)
split_lines-Follow o e current (l ∷ ls) h =
    if_intro {A = Exec (List Document)} (Follow o (l ∷ ls)) (ltb (length l.path) 4)
      (λ short.
        later-Follow o l ls (split_lines e (append_line current l) ls)
          (inl (ltb→lt (length l.path) 4 short))
          (split_lines-Follow o e (append_line current l) ls
            (Gathers-short o current.lines l e h (ltb→lt (length l.path) 4 short))))
      (λ long.
        split_at_prefix-Follow o e current l ls (list_prefix l.path) (ground arith) h
          (list_prefix-IsPrefix l.path) (λ o' q d g. split_lines-Follow o' q d ls g))

-- The documents have the lines between them, each begins where the one before it ended, and the
-- index changes at each but the first; or the first line that fails is named.
abbrev pub AreSplit : ℕ → List Line → Exec (List Document) → Type 0
AreSplit start ls (ok []) = ⊥
AreSplit start ls (ok (d ∷ ds)) =
    (all_lines (d ∷ ds) ≡ ls)
    × AreAdjacent start (d ∷ ds)
    × ((e : Bytes) × StaysTo [] d.lines e × AreElements e ds)
AreSplit start ls (err x) = (x ≡ missing_bracket) × FailsAt (All (λ c. c ≢ b']')) ls
AreSplit start ls panic = FailsAt IsEarly ls
AreSplit start ls out_of_fuel = ⊥

both :
    (start : ℕ) (ls : List Line) (r : Exec (List Document))
    → Divides start ls r
    → Follow none ls r
    → AreSplit start ls r
both start ls (ok []) d f = elim f [ ]
both start ls (ok (x ∷ xs)) (lines, adjacent) f = (lines, adjacent, f)
both start ls (err x) d f = f
both start ls panic d f = f
both start ls out_of_fuel d f = elim f [ ]

-- `splitListDocument` ends. Its documents have the lines of the document in their order, each
-- begins where the one before it ended, and a document begins exactly at a line whose path has four
-- bytes or more and another index, in front of its first closing bracket, than the last such line
-- before it, if that index is not blank. It fails exactly where such a line has no index: with an
-- error where the first of them has no closing bracket, and with a panic where the bracket is
-- among its first two bytes.
pub split_list_document-AreSplit :
    (doc : Document) → AreSplit doc.offset doc.lines (split_list_document doc)
unfolding split_list_document
split_list_document-AreSplit doc =
    both doc.offset doc.lines (split_list_document doc) (split_list_document-Divides doc)
      (split_lines-Follow none [] (record { offset = doc.offset; lines = [] }) doc.lines refl)
