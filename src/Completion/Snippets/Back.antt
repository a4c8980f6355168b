-- ===== src/Completion/Snippets/Back.antt =====
-- How the loop of `findLine` goes back through one document.
use nobl9_language_server.Base.{
  some_same, ℕ, zero, suc, ◌+◌, ◌-◌, ◌≤◌, ◌<◌, ◌≡◌, refl, sym, ap, ◌∙◌, Bool, true, false, Option,
  none, some, List, [], ◌∷◌, ltb, ltb→lt, length, get_elem?, arith, Bool-cases, ◌⊎◌, inl, inr,
}
use nobl9_language_server.YamlAstSimple.Lines.{Line, Document, find_line}
use nobl9_language_server.Files.{ℤ, pos, negsuc}
use nobl9_language_server.Completion.Snippets.{stop_or, find_back}

-- An index that names something names something wherever it is smaller.
get_elem?_below {ℓ} :
    {A : Type ℓ} (xs : List A) (k m : ℕ) {x : A}
    → get_elem? xs m ≡ some x
    → k ≤ m
    → (y : A) × (get_elem? xs k ≡ some y)
get_elem?_below [] k m e h = cc
get_elem?_below (y ∷ xs) zero m e h = (y, refl)
get_elem?_below (y ∷ xs) (suc k) zero e h = absurd (omega arith)
get_elem?_below (y ∷ xs) (suc k) (suc m) e h = get_elem?_below xs k m e (omega arith)

pub find_line-before : (d : Document) (n : ℕ) → n < d.offset → find_line d n ≡ none
unfolding find_line
find_line-before d n h = ground arith

-- The lines of a document follow one another.
line_between :
    (d : Document) (k m n : ℕ) {l l' : Line}
    → find_line d k ≡ some l
    → find_line d n ≡ some l'
    → k ≤ m
    → m ≤ n
    → (x : Line) × (find_line d m ≡ some x)
unfolding find_line
line_between d k m n e e' a b = elim (Bool-cases (ltb k d.offset)) [
  | inl low ↦ ground arith
  | inr high ↦ elim (Bool-cases (ltb n d.offset)) [
    | inl low' ↦ ground arith
    | inr high' ↦
        let there : (x : Line) × (get_elem? d.lines (m - d.offset) ≡ some x) =
          get_elem?_below d.lines (m - d.offset) (n - d.offset) (rw high' at e') (omega arith) in
        let not_low : ltb m d.offset ≡ false = ground arith in (there.0, rw not_low there.1)
  ]
]

pub line_inside :
    (d : Document) (n : ℕ) {l : Line} → find_line d n ≡ some l → n < d.offset + length d.lines
unfolding find_line
line_inside d n e = elim (Bool-cases (ltb n d.offset)) [
  | inl low ↦ ground arith
  | inr high ↦ let inside = index_inside d.lines (n - d.offset) (rw high at e) in ground arith
]
  where
    index_inside : (ls : List Line) (k : ℕ) {l : Line} → get_elem? ls k ≡ some l → k < length ls
    index_inside [] k h = cc
    index_inside (l ∷ ls) zero h = omega arith
    index_inside (l ∷ ls) (suc k) h = omega (arith, index_inside ls k h)

module _ (filter : Line → Bool) where
  -- The document has the lines behind `m` and up to `n`, and all of them are passed over.
  abbrev pub Skips : Document → ℕ → ℕ → Type 0
  Skips d m n = (k : ℕ) → m < k → k ≤ n → (l : Line) × (find_line d k ≡ some l) × (filter l ≡ true)

  abbrev pub StopsAt : Document → ℕ → ℕ → Line → Type 0
  StopsAt d n m l = (m ≤ n) × (find_line d m ≡ some l) × (filter l ≡ false) × Skips d m n

  -- The lines of the document up to `n` are passed over.
  abbrev pub SkipsAll : Document → ℕ → Type 0
  SkipsAll d n = (k : ℕ) (l : Line) → k ≤ n → find_line d k ≡ some l → filter l ≡ true

  -- What the inner loop ends with.
  abbrev pub Ends : Document → ℕ → Option Line × ℤ → Type 0
  Ends d n (some l, pos m) = StopsAt d n m l
  Ends d n (some l, negsuc m) = ⊥
  Ends d n (none, pos m) = (m ≤ n) × (find_line d m ≡ none) × Skips d m n
  Ends d n (none, negsuc m) = SkipsAll d n

  no_lines_between :
      (d : Document) (n k : ℕ)
      → n < k
      → k ≤ n
      → (l : Line) × (find_line d k ≡ some l) × (filter l ≡ true)
  no_lines_between d n k a b = absurd (omega arith)

  stop-Ends :
      (d : Document) (n : ℕ) (o : Option Line) (back : Option Line × ℤ)
      → find_line d n ≡ o
      → ((l : Line) → find_line d n ≡ some l → filter l ≡ true → Ends d n back)
      → Ends d n (stop_or filter n o back)
  stop-Ends d n none back e h = (omega arith, e, λ k a b. no_lines_between d n k a b)
  stop-Ends d n (some l) back e h = elim (Bool-cases (filter l)) [
    | inl t ↦ rw t (h l e t)
    | inr f ↦ rw f (omega arith, e, f, λ k a b. no_lines_between d n k a b)
  ]

  le_suc_cases : (k n : ℕ) → k ≤ suc n → (k ≤ n) ⊎ (k ≡ suc n)
  le_suc_cases k n h = elim (Bool-cases (ltb n k)) [
    | inl e ↦ inr (ground arith)
    | inr e ↦ inl (ground arith)
  ]

  Skips-suc :
      (d : Document) (m n : ℕ) (l : Line)
      → find_line d (suc n) ≡ some l
      → filter l ≡ true
      → Skips d m n
      → Skips d m (suc n)
  Skips-suc d m n l e t h k a b = elim (le_suc_cases k n b) [
    | inl le ↦ h k a le
    | inr same ↦ (l, ap (find_line d) same ∙ e, t)
  ]

  same_line :
      (d : Document) {k n : ℕ} {l m : Line}
      → k ≡ n
      → find_line d k ≡ some l
      → find_line d n ≡ some m
      → filter m ≡ true
      → filter l ≡ true
  same_line d {k} {n} {l} {m} same e e' t =
      let both : ◌≡◌ {A = Option Line} (some l) (some m) = sym e ∙ ap (find_line d) same ∙ e' in
      ap filter (some_same both) ∙ t

  SkipsAll-suc :
      (d : Document) (n : ℕ) (l : Line)
      → find_line d (suc n) ≡ some l
      → filter l ≡ true
      → SkipsAll d n
      → SkipsAll d (suc n)
  SkipsAll-suc d n l e t h k m b e' = elim (le_suc_cases k n b) [
    | inl le ↦ h k m le e'
    | inr same ↦ same_line d same e' e t
  ]

  Ends-suc :
      (d : Document) (n : ℕ) (l : Line) (r : Option Line × ℤ)
      → find_line d (suc n) ≡ some l
      → filter l ≡ true
      → Ends d n r
      → Ends d (suc n) r
  Ends-suc d n l (some l', pos m) e t (le, is, keep, skips) =
      (omega arith, is, keep, Skips-suc d m n l e t skips)
  Ends-suc d n l (some l', negsuc m) e t h = h
  Ends-suc d n l (none, pos m) e t (le, is, skips) = (omega arith, is, Skips-suc d m n l e t skips)
  Ends-suc d n l (none, negsuc m) e t h = SkipsAll-suc d n l e t h

  pub find_back-Ends : (d : Document) (n : ℕ) → Ends d n (find_back filter d n)
  unfolding find_back
  find_back-Ends d zero =
      stop-Ends d zero (find_line d zero) (none, negsuc 0) refl
        (λ l e t k m b e'. same_line d (omega arith) e' e t)
  find_back-Ends d (suc n) =
      stop-Ends d (suc n) (find_line d (suc n)) (find_back filter d n) refl
        (λ l e t. Ends-suc d n l (find_back filter d n) e t (find_back-Ends d n))

  pub find_back-none :
      (d : Document) (n : ℕ) → find_line d n ≡ none → find_back filter d n ≡ (none, pos n)
  unfolding find_back
  find_back-none d zero e = rw (e, find_back) refl
  find_back-none d (suc n) e = rw (e, find_back) refl

  pub Skips-below :
      (d : Document) (m n : ℕ) {l : Line}
      → find_line d n ≡ some l
      → m ≤ n
      → find_line d m ≡ none
      → Skips d m n
      → SkipsAll d n
  Skips-below d m n e le gap skips k x b e' = elim (Bool-cases (ltb m k)) [
    | inl above ↦ let (y, is, t) = skips k (ltb→lt m k above) b in same_line d refl e' is t
    | inr below ↦ let (y, is) = line_between d k m n e' e (ground arith) le in cc
  ]
