-- ===== src/ObjectRef/Filling.antt =====
-- `Get` fills the templates of the table.
use nobl9_language_server.Base.{
  ℕ, suc, ◌+◌, ◌≤◌, ◌≡◌, refl, sym, ap, ◌∙◌, inl, inr, Bool, true, false, ◌&&◌, Option, none, some,
  List, [], ◌∷◌, ◌==◌, if◌then◌else◌, Bool-cases, ==_iff, All, length, arith,
}
use mathlib.Core.Option
use nobl9_language_server.Text.Laws.{count-append}
use nobl9_language_server.Text.{Bytes, codes, count, equal, equal_iff}
use nobl9_language_server.Text.Decimal.{itoa, itoa-All, is_digit}
use nobl9_language_server.Manifest.{Kind}
use nobl9_language_server.YamlAstSimple.Lines.{Line}
use nobl9_language_server.ObjectRef.{
  Reference, references, or_this, contains_kind, find_reference, indexes_from, sprintf, fill_path,
  next_argument, if_any, calculate_referenced_path, behind_root_index, with_line, get,
}

abbrev pub percents : Bytes → ℕ
percents = count b'%'

-- The verbs `%d` of a template.
unfoldable verbs : Bytes → ℕ
verbs [] = 0
verbs (c ∷ []) = 0
verbs (c ∷ d ∷ cs) =
    let skipped = verbs cs in
    let next = verbs (d ∷ cs) in if c == b'%' && d == b'd' then suc skipped else next

percents-digits : (s : Bytes) → All (λ c. is_digit c ≡ true) s → percents s ≡ 0
unfolding count is_digit
percents-digits [] h = refl
percents-digits (x ∷ s) (digit, h) = let rest = percents-digits s h in ground arith

verbs-le : (t : Bytes) → verbs t ≤ percents t
unfolding verbs count
verbs-le [] = omega arith
verbs-le (c ∷ []) = omega arith
verbs-le (c ∷ d ∷ cs) = let one = verbs-le cs in let two = verbs-le (d ∷ cs) in ground arith

next_argument-percents :
    (is : List ℕ) (n : ℕ) (rest : List ℕ → Bytes)
    → length is ≡ suc n
    → ((js : List ℕ) → length js ≡ n → percents (rest js) ≡ 0)
    → percents (next_argument is rest) ≡ 0
next_argument-percents [] n rest h k = absurd (omega arith)
next_argument-percents (i ∷ is) n rest h k =
    let digits = percents-digits (itoa i) (itoa-All i) in
    let behind = k is (omega arith) in omega (arith, count-append b'%' (itoa i) (rest is))

-- The first byte of a template that has no percent signs but those of its verbs, where it is no verb.
no_percent :
    (c : ℕ) (t : Bytes)
    → percents (c ∷ t) ≡ verbs t
    → ((c == b'%') ≡ false) × (percents t ≡ verbs t)
unfolding count
no_percent c t p = let least = verbs-le t in ground arith

verb_percents :
    (c d : ℕ) (cs : Bytes)
    → (c == b'%' && d == b'd') ≡ true
    → percents (c ∷ d ∷ cs) ≡ suc (verbs cs)
    → percents cs ≡ verbs cs
unfolding count
verb_percents c d cs verb p =
    let first : c ≡ b'%' = ground arith in
    let second : d ≡ b'd' = ground arith in
    let known : 1 + (0 + percents cs) ≡ suc (verbs cs) = rw (first, second) at p in omega arith

sprintf-percents :
    (t : Bytes) (is : List ℕ)
    → length is ≡ verbs t
    → percents t ≡ verbs t
    → percents (sprintf t is) ≡ 0
unfolding sprintf verbs count
sprintf-percents [] [] h p = refl
sprintf-percents [] (i ∷ is) h p = absurd (omega arith)
sprintf-percents (c ∷ []) [] h p = p
sprintf-percents (c ∷ []) (i ∷ is) h p = absurd (omega arith)
sprintf-percents (c ∷ d ∷ cs) is h p = elim (Bool-cases (c == b'%' && d == b'd')) [
  | inl verb ↦
      let rest = verb_percents c d cs verb (rw (verb, verbs) at p) in
      rw (verb, sprintf)
        (next_argument-percents is (verbs cs) (λ js. sprintf cs js) (rw (verb, verbs) at h)
          (λ js fits. sprintf-percents cs js fits rest))
  | inr plain ↦
      let (other, rest) = no_percent c (d ∷ cs) (rw (plain, verbs) at p) in
      let behind = sprintf-percents (d ∷ cs) is (rw (plain, verbs) at h) rest in
      rw (plain, sprintf) (ground arith)
]

-- A template of the table for a path: it has a verb for every bracket of the path.
abbrev fits : Bytes → Bytes → Bool
fits path [] = true
fits path (c ∷ t) = verbs (c ∷ t) == count b'[' path && percents (c ∷ t) == verbs (c ∷ t)

abbrev fits_both : Reference → Bool
fits_both r = fits r.path r.project_path && fits r.path r.slo_path

abbrev all_fit : List Reference → Bool
all_fit [] = true
all_fit (r ∷ rs) = fits_both r && all_fit rs

all_fit-references : all_fit references ≡ true
unfolding references codes count verbs
all_fit-references = refl

-- What is found at a path fits it.
abbrev IsFitting : Bytes → Option Reference → Type 0
IsFitting path none = Unit
IsFitting path (some r) = (fits_both r ≡ true) × (r.path ≡ path)

and_true : (a b : Bool) → (a && b) ≡ true → (a ≡ true) × (b ≡ true)
and_true true true h = (refl, refl)
and_true true false h = cc
and_true false b h = cc

or_this-IsFitting :
    (path : Bytes) (found : Option Reference) (applies here : Bool) (r : Reference)
    → IsFitting path found
    → fits_both r ≡ true
    → (here ≡ true → r.path ≡ path)
    → IsFitting path (or_this found (applies && here) r)
or_this-IsFitting path (some later) applies here r found fit same = found
or_this-IsFitting path none true true r found fit same = (fit, same refl)
or_this-IsFitting path none true false r found fit same = tt
or_this-IsFitting path none false here r found fit same = tt

find_reference-IsFitting :
    (rs : List Reference) (kind : Kind) (path : Bytes)
    → all_fit rs ≡ true
    → IsFitting path (find_reference rs kind path)
unfolding find_reference
find_reference-IsFitting [] kind path fit = tt
find_reference-IsFitting (r ∷ rs) kind path fit =
    let (here, rest) = and_true (fits_both r) (all_fit rs) fit in
    or_this-IsFitting path (find_reference rs kind path) (contains_kind r.applies_to kind)
      (equal r.path path) r (find_reference-IsFitting rs kind path rest) here
      (equal_iff r.path path).0

fill_path-percents :
    (is : List ℕ) (t : Bytes)
    → length is ≡ verbs t
    → percents t ≡ verbs t
    → percents (fill_path is t) ≡ 0
unfolding fill_path
fill_path-percents [] t h p = p ∙ sym h
fill_path-percents (i ∷ is) t h p = sprintf-percents t (i ∷ is) h p

-- The reference in an option, or else this one.
abbrev or_else : Reference → Option Reference → Reference
or_else r none = r
or_else r (some s) = s

if_any-percents :
    (line_path path t : Bytes)
    → fits path t ≡ true
    → length (indexes_from false [] line_path) ≡ count b'[' path
    → percents (if_any line_path t) ≡ 0
unfolding count calculate_referenced_path
if_any-percents line_path path [] fit h = refl
if_any-percents line_path path (c ∷ t) fit h =
    let (as_many, no_other) =
      and_true (verbs (c ∷ t) == count b'[' path) (percents (c ∷ t) == verbs (c ∷ t)) fit in
    fill_path-percents (indexes_from false [] line_path) (c ∷ t)
      (h ∙ sym ((==_iff (verbs (c ∷ t)) (count b'[' path)).0 as_many))
      ((==_iff (percents (c ∷ t)) (verbs (c ∷ t))).0 no_other)

-- Of a line with as many indexes behind its root as its general path has brackets, `Get` gives paths
-- without a percent sign: every verb of a template was given an index, and no index was left over.
pub get-percents :
    (kind : Kind) (line : Line) {r : Reference}
    → length (indexes_from false [] (behind_root_index line.path))
      ≡ count b'[' line.generalized_path
    → get kind line ≡ some r
    → (percents r.project_path ≡ 0) × (percents r.slo_path ≡ 0)
unfolding get
get-percents kind line {r} h e =
    go (find_reference references kind line.generalized_path)
      (find_reference-IsFitting references kind line.generalized_path all_fit-references) e
  where
    go :
        (o : Option Reference)
        → IsFitting line.generalized_path o
        → Option.map (with_line line) o ≡ some r
        → (percents r.project_path ≡ 0) × (percents r.slo_path ≡ 0)
    go none fits here = cc
    go (some found) (fit, same) here =
        let is_r : with_line line found ≡ r = ap (or_else r) here in
        let (project, slo) =
          and_true (fits found.path found.project_path) (fits found.path found.slo_path) fit in
        let as_many = h ∙ ap (count b'[') (sym same) in
        (
          sym (ap (λ q. percents q.project_path) is_r)
              ∙ if_any-percents (behind_root_index line.path) found.path found.project_path project
                  as_many,
          sym (ap (λ q. percents q.slo_path) is_r)
              ∙ if_any-percents (behind_root_index line.path) found.path found.slo_path slo as_many,
        )
