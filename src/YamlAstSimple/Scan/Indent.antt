-- ===== src/YamlAstSimple/Scan/Indent.antt =====
-- What `getIndentLevel` counts, and where it panics.
use mathlib.Core.Path.{subst}
use nobl9_language_server.Base.{
  sym, get_elem?, ltb, ltb→lt, ◌⊎◌, All-weaken, ℕ, suc, ◌+◌, ◌<◌, ◌≤◌, ◌≡◌, ◌≢◌, ◌↔◌, true, false,
  Option, none, some, List, [], ◌∷◌, ◌++◌, take, length, All, arith, if◌then◌else◌, Option-cases,
  Bool-cases, inl, inr,
}
use nobl9_language_server.Text.{Bytes}
use nobl9_language_server.Text.Runes.{Rune, runes, bytes_of, is_space, is_wide_space}
use nobl9_language_server.Text.Runes.RoundTrip.{
  IsLed, runes-IsLed, IsExact, runes-IsExact, bytes_of-runes,
}
use nobl9_language_server.YamlAstSimple.Scan.{
  is_ascii_space, ends_indent, indent_from, get_indent_level,
}

-- The first rune that is no ASCII white space.
abbrev pub first_visible : List Rune → Option Rune
first_visible [] = none
first_visible (r ∷ rs) = if is_ascii_space r.char then first_visible rs else some r

-- The first rune that is no ASCII white space is white space beyond Latin-1.
abbrev pub BeginsWide : Bytes → Type 0
BeginsWide s = (r : Rune) × (first_visible (runes s) ≡ some r) × (is_wide_space r.char ≡ true)

ends_indent_wide :
    (c : ℕ) → is_ascii_space c ≡ false → (ends_indent c ≡ none) ↔ (is_wide_space c ≡ true)
unfolding ends_indent is_wide_space is_space is_ascii_space
ends_indent_wide c = ground arith

ends_indent_ascii : (c : ℕ) → is_ascii_space c ≡ true → ends_indent c ≡ some false
unfolding ends_indent is_space is_wide_space
ends_indent_ascii c h = ground arith

ends_indent_not_false : (c : ℕ) → is_ascii_space c ≡ false → ends_indent c ≢ some false
unfolding ends_indent
ends_indent_not_false c h = ground arith

abbrev WideFirst : List Rune → Type 0
WideFirst rs = (r : Rune) × (first_visible rs ≡ some r) × (is_wide_space r.char ≡ true)

indent_from-WideFirst : (ctr : ℕ) (rs : List Rune) → indent_from ctr rs ≡ none → WideFirst rs
unfolding indent_from
indent_from-WideFirst ctr [] h = cc
indent_from-WideFirst ctr (r ∷ rs) h = elim (Bool-cases (is_ascii_space r.char)) [
  | inl space ↦
      let (w, seen, wide) =
        indent_from-WideFirst (ctr + 1) rs
          (rw (ends_indent_ascii r.char space, indent_from) at h) in
      (w, rw space seen, wide)
  | inr visible ↦ elim (Option-cases (ends_indent r.char)) [
    | inl e ↦ (r, rw visible, (ends_indent_wide r.char visible).0 e)
    | inr (true, e) ↦ absurd (cc (rw (e, indent_from) at h))
    | inr (false, e) ↦ absurd (ends_indent_not_false r.char visible e)
  ]
]

WideFirst-indent_from : (ctr : ℕ) (rs : List Rune) → WideFirst rs → indent_from ctr rs ≡ none
unfolding indent_from
WideFirst-indent_from ctr [] (w, seen, wide) = cc
WideFirst-indent_from ctr (r ∷ rs) (w, seen, wide) = elim (Bool-cases (is_ascii_space r.char)) [
  | inl space ↦
      rw (ends_indent_ascii r.char space, indent_from)
        (WideFirst-indent_from (ctr + 1) rs (w, rw space at seen, wide))
  | inr visible ↦
      let same : r ≡ w = ground (arith, rw visible at seen) in
      rw ((ends_indent_wide r.char visible).1 (rw same wide), indent_from)
]

-- `getIndentLevel` panics exactly on a line that begins with white space beyond Latin-1, behind
-- any ASCII white space.
pub get_indent_level-eq-none_iff : (s : Bytes) → (get_indent_level s ≡ none) ↔ BeginsWide s
unfolding get_indent_level
get_indent_level-eq-none_iff s =
    (indent_from-WideFirst 0 (runes s), WideFirst-indent_from 0 (runes s))

abbrev pub IsSpaces : Bytes → Type 0
IsSpaces = All (λ c. is_ascii_space c ≡ true)

-- No white space is at this place.
abbrev Ends : Option ℕ → Type 0
Ends none = Unit
Ends (some c) = is_ascii_space c ≡ false

-- `k` bytes of white space were counted from `ctr` up to `n`, and no more follow.
abbrev Counted : ℕ → ℕ → Bytes → Type 0
Counted ctr n bs =
    (k : ℕ) × (n ≡ ctr + k) × (k ≤ length bs) × IsSpaces (take k bs) × Ends (get_elem? bs k)

visible_lead : (r : Rune) → IsLed r → is_ascii_space r.char ≡ false → is_ascii_space r.lead ≡ false
unfolding is_ascii_space
visible_lead r led visible = elim (Bool-cases (ltb r.lead 128)) [
  | inl low ↦ subst (λ c. is_ascii_space c ≡ false) (led (ltb→lt r.lead 128 low)) visible
  | inr high ↦ high_lead r.lead high
]
  where
    high_lead : (c : ℕ) → ltb c 128 ≡ false → is_ascii_space c ≡ false
    high_lead c h = ground arith

ascii_below : (c : ℕ) → is_ascii_space c ≡ true → c < 128
unfolding is_ascii_space
ascii_below c h = ground arith

some_eq : {a b : ℕ} → some a ≡ some b → b ≡ a + 0
some_eq h = ground arith

indent_from-Counted :
    (ctr : ℕ) (rs : List Rune) {n : ℕ}
    → All IsExact rs
    → All IsLed rs
    → indent_from ctr rs ≡ some n
    → Counted ctr n (bytes_of rs)
unfolding indent_from bytes_of
indent_from-Counted ctr [] x y h = (0, ground arith, ground arith, tt, tt)
indent_from-Counted ctr (r ∷ rs) {n} (exact, x) (led, y) h =
    elim (Bool-cases (is_ascii_space r.char)) [
      | inl space ↦
          let (k, total, within, spaces, ends) =
            indent_from-Counted (ctr + 1) rs {n = n} x y
              (rw (ends_indent_ascii r.char space, indent_from) at h) in
          let (lead, more) = exact (ascii_below r.char space) in
          rw more (
            suc k,
            omega arith,
            omega arith,
            (rw lead space, spaces),
            subst (λ m. Ends (get_elem? (r.lead ∷ (m ++ bytes_of rs)) (suc k))) (sym more) ends,
          )
      | inr visible ↦ elim (Option-cases (ends_indent r.char)) [
        | inl e ↦ cc (rw (e, indent_from) at h)
        | inr (true, e) ↦
            (0, some_eq (rw (e, indent_from) at h), omega arith, tt, visible_lead r led visible)
        | inr (false, e) ↦ absurd (ends_indent_not_false r.char visible e)
      ]
    ]

-- A blank, or one of the characters from the tab to the carriage return.
abbrev pub IsWhite : ℕ → Type 0
IsWhite c = (c ≡ b' ') ⊎ ((9 ≤ c) × (c ≤ 13))

is_ascii_space-IsWhite : (c : ℕ) → (is_ascii_space c ≡ true) ↔ IsWhite c
unfolding is_ascii_space
is_ascii_space-IsWhite c = ground arith

-- No white space is here, if anything is.
abbrev pub IsVisible : Option ℕ → Type 0
IsVisible none = Unit
IsVisible (some c) = ¬ IsWhite c

Ends-IsVisible : (o : Option ℕ) → Ends o → IsVisible o
Ends-IsVisible none visible = tt
Ends-IsVisible (some c) visible =
    λ white. let space : is_ascii_space c ≡ true = (is_ascii_space-IsWhite c).1 white in cc

-- What `getIndentLevel` returns is how many bytes of ASCII white space the line begins with: so many
-- bytes in front are white space, and the byte behind them, if there is one, is not.
pub get_indent_level-IsWhite :
    (s : Bytes) {n : ℕ}
    → get_indent_level s ≡ some n
    → (n ≤ length s) × All IsWhite (take n s) × IsVisible (get_elem? s n)
unfolding get_indent_level
get_indent_level-IsWhite s {n} h =
    let (k, total, within, spaces, ends) =
      rw (bytes_of-runes s) at
        (indent_from-Counted 0 (runes s) {n = n} (runes-IsExact s) (runes-IsLed s) h) in
    let same : k ≡ n = omega arith in
    rw (← same) (
      within,
      All-weaken (λ c. is_ascii_space c ≡ true) IsWhite (λ c. (is_ascii_space-IsWhite c).0)
          (take k s) spaces,
      Ends-IsVisible (get_elem? s k) ends,
    )

pub get_indent_level-IsSpaces :
    (s : Bytes) {n : ℕ} → get_indent_level s ≡ some n → (n ≤ length s) × IsSpaces (take n s)
get_indent_level-IsSpaces s {n} h =
    let (within, white, _) = get_indent_level-IsWhite s h in
    (
      within,
      All-weaken IsWhite (λ c. is_ascii_space c ≡ true) (λ c. (is_ascii_space-IsWhite c).1)
          (take n s) white,
    )
