-- ===== src/Hover/Templates/Escaping.antt =====
-- How Markdown reads what `markdownEscape` makes.
use nobl9_language_server.Base.{
  arith, Bool, ◌||◌, leb, ℕ, ◌≡◌, refl, sym, ap, ◌∙◌, ==_iff, true, false, ◌&&◌, List, [], ◌∷◌,
  ◌==◌, if◌then◌else◌, Bool-cases, inl, inr,
}
use mathlib.Core.Path.{subst}
use nobl9_language_server.Text.{Bytes, codes}
use nobl9_language_server.Hover.Templates.{is_special, markdown_escape}

-- A byte as Markdown takes it: as itself, or as a character with a meaning.
pub data Read : Type 0 where
  literal meaningful : ℕ → Read

-- The characters that the Markdown guide lists as those with a meaning.
abbrev pub has_meaning : ℕ → Bool
has_meaning c =
    b'\\' == c
    || b'`' == c
    || b'*' == c
    || b'_' == c
    || b'{' == c
    || b'}' == c
    || b'[' == c
    || b']' == c
    || b'<' == c
    || b'>' == c
    || b'(' == c
    || b')' == c
    || b'#' == c
    || b'+' == c
    || b'-' == c
    || b'.' == c
    || b'!' == c
    || b'|' == c

-- The punctuation of ASCII, all of which a backslash makes literal.
abbrev pub is_punctuation : ℕ → Bool
is_punctuation c =
    leb 33 c && leb c 47 || leb 58 c && leb c 64 || leb 91 c && leb c 96 || leb 123 c && leb c 126

abbrev pub taken : ℕ → Read
taken c = if has_meaning c then meaningful c else literal c

-- A backslash in front of punctuation makes it literal; any other character of the list has its
-- meaning.
unfoldable pub read : Bytes → List Read
read [] = []
read (c ∷ []) = taken c ∷ []
read (c ∷ d ∷ cs) =
    let pair = literal d ∷ read cs in
    let alone = read (d ∷ cs) in if c == b'\\' && is_punctuation d then pair else taken c ∷ alone

-- All bytes as themselves.
abbrev pub literals : Bytes → List Read
literals [] = []
literals (c ∷ cs) = literal c ∷ literals cs

special_meaning : (c : ℕ) → is_special c ≡ has_meaning c
unfolding is_special codes
special_meaning c = ground arith

special_punctuation : (c : ℕ) → is_special c ≡ true → is_punctuation c ≡ true
special_punctuation c e =
    let h : has_meaning c ≡ true = sym (special_meaning c) ∙ e in punctuation c h
  where
    punctuation : (d : ℕ) → has_meaning d ≡ true → is_punctuation d ≡ true
    punctuation d h = ground arith

backslash_special : (c : ℕ) → (c == b'\\') ≡ true → is_special c ≡ true
unfolding is_special codes
backslash_special c h = subst (λ d. is_special d ≡ true) (sym ((==_iff c b'\\').0 h)) refl

-- A byte that is not special in front of any text.
read-plain : (c : ℕ) (s : Bytes) → is_special c ≡ false → read (c ∷ s) ≡ literal c ∷ read s
unfolding read
read-plain c [] e =
    let plain = sym (special_meaning c) ∙ e in
    ap (λ b. (if b then meaningful c else literal c) ∷ []) plain
read-plain c (d ∷ s) e = elim (Bool-cases (c == b'\\')) [
  | inl slash ↦ let special : is_special c ≡ true = backslash_special c slash in cc
  | inr other ↦
      let plain = sym (special_meaning c) ∙ e in
      rw other (ap (λ b. (if b then meaningful c else literal c) ∷ read (d ∷ s)) plain)
]

read-escaped : (c : ℕ) (s : Bytes) → is_special c ≡ true → read (b'\\' ∷ c ∷ s) ≡ literal c ∷ read s
unfolding read
read-escaped c s e =
    let p = special_punctuation c e in
    ap (λ b. if b then literal c ∷ read s else taken b'\\' ∷ read (c ∷ s)) p

read_nil : read [] ≡ []
unfolding read
read_nil = refl

-- Markdown, in which the characters that its guide lists have a meaning and a backslash makes ASCII
-- punctuation literal, reads an escaped text as the bytes of the text, each as itself: no character of
-- the list keeps its meaning, and no byte is lost or added.
pub read-markdown_escape : (s : Bytes) → read (markdown_escape s) ≡ literals s
unfolding markdown_escape
read-markdown_escape [] = read_nil
read-markdown_escape (c ∷ s) = elim (Bool-cases (is_special c)) [
  | inl e ↦ rw e (
      read-escaped c (markdown_escape s) e ∙ ap (λ rest. literal c ∷ rest) (read-markdown_escape s))
  | inr e ↦
      rw e (
        read-plain c (markdown_escape s) e ∙ ap (λ rest. literal c ∷ rest) (read-markdown_escape s))
]
