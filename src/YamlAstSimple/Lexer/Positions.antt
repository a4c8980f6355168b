-- ===== src/YamlAstSimple/Lexer/Positions.antt =====
-- Keys and values of the lines that `parseDocumentLines` makes: the positions are within the line,
-- and the text at them is the key and the value.
use nobl9_language_server.Base.{
  ℕ, zero, suc, ◌+◌, ◌-◌, ◌<◌, ◌≤◌, ◌≡◌, refl, if_intro, true, not, Option, none, some, [], ◌∷◌,
  drop, length, length-drop, get_elem?, drop-take-drop, ==_iff, arith, if◌then◌else◌, ◌==◌,
}
use mathlib.Core.Path.{subst}
use nobl9_language_server.Text.{Bytes, has_prefix, equal}
use nobl9_language_server.YamlAstSimple.Lines.{Line, is_type, mapping, slice, add_type}
use nobl9_language_server.YamlAstSimple.Scan.{get_colon_index, is_mapping_node}
use nobl9_language_server.YamlAstSimple.Scan.Colon.{get_elem?-get_colon_index}
use nobl9_language_server.YamlAstSimple.Lexer.{
  Block, list_item, minus_two, lex_list, key_line, lex_mapping, lex_content,
}

-- The colon of a line, if it has one, is a colon of its text.
abbrev pub HasColon : Option ℕ → Bytes → Type 0
HasColon none value = Unit
HasColon (some c) value = (c < length value) × (get_elem? value c ≡ some b':')

colon_of : (s : Bytes) → HasColon (get_colon_index s) s
colon_of s = go (get_colon_index s) refl
  where
    go : (o : Option ℕ) → get_colon_index s ≡ o → HasColon o s
    go none e = tt
    go (some c) e = get_elem?-get_colon_index s e

-- Behind "- " the colon is found two places earlier.
HasColon-drop :
    (s : Bytes) (o : Option ℕ)
    → has_prefix (b'-' ∷ b' ' ∷ []) s ≡ true
    → HasColon o s
    → HasColon (minus_two o) (drop 2 s)
unfolding has_prefix equal
HasColon-drop s none p h = tt
HasColon-drop [] (some c) p h = cc
HasColon-drop (x ∷ []) (some c) p h = ground arith
HasColon-drop (x ∷ y ∷ s) (some zero) p h = ground arith
HasColon-drop (x ∷ y ∷ s) (some (suc zero)) p h = ground arith
HasColon-drop (x ∷ y ∷ s) (some (suc (suc c))) p h =
    let same : c ≡ suc (suc c) - 2 = omega arith in
    subst (λ k. HasColon (some k) s) same (ground arith, h.1)

abbrev pub ColonIn : Line → Type 0
ColonIn l = HasColon l.colon l.value

list_item-ColonIn : (n : ℕ) (s : Bytes) (o : Option ℕ) → HasColon o s → ColonIn (list_item n s o)
unfolding add_type
list_item-ColonIn n s none h = tt
list_item-ColonIn n s (some c) h = h

list_item_text :
    (n : ℕ) (s : Bytes) (o : Option ℕ)
    → ((list_item n s o).value ≡ s)
      × ((list_item n s o).colon ≡ o)
      × ((list_item n s o).indent ≡ n + 2)
unfolding add_type
list_item_text n s none = (refl, refl, refl)
list_item_text n s (some c) = (refl, refl, refl)

lex_list-ColonIn : (n : ℕ) (s : Bytes) → ColonIn (lex_list n s)
unfolding lex_list
lex_list-ColonIn n s =
    let item = list_item-ColonIn n s (get_colon_index s) (colon_of s) in
    let (_, colon, _) = list_item_text n s (get_colon_index s) in
    if_intro ColonIn (has_prefix (b'-' ∷ b' ' ∷ []) s)
      (λ p. rw colon (HasColon-drop s (get_colon_index s) p (colon_of s))) (λ _. item)

key_line-ColonIn : (n : ℕ) (s : Bytes) (o : Option ℕ) → HasColon o s → ColonIn (key_line n s o)
key_line-ColonIn n s none h = tt
key_line-ColonIn n s (some c) h = h

lex_mapping-ColonIn : (b : Block) (n : ℕ) (s : Bytes) → ColonIn (lex_mapping b n s).0
unfolding lex_mapping
lex_mapping-ColonIn b n s =
    if_intro {A = Line × Block} (λ p. ColonIn p.0) (not (is_mapping_node s)) (λ _. tt)
      (λ _. key_line-ColonIn n s (get_colon_index s) (colon_of s))

pub lex_content-ColonIn : (b : Block) (n : ℕ) (s : Bytes) → ColonIn (lex_content b n s).0
unfolding lex_content
lex_content-ColonIn b n [] = tt
lex_content-ColonIn b n (c ∷ cs) =
    if_intro {A = Line × Block} (λ p. ColonIn p.0) (c == b'#') (λ _. tt)
      λ _.
        if_intro {A = Line × Block} (λ p. ColonIn p.0) (c == b'-')
          (λ _. lex_list-ColonIn n (c ∷ cs)) (λ _. lex_mapping-ColonIn b n (c ∷ cs))

-- The text of a line stands behind its indent in `s`, a line with `n` bytes cut off.
abbrev pub Placed : ℕ → Bytes → Line → Type 0
Placed n s l = (k : ℕ) × (l.indent ≡ n + k) × (k ≤ length s) × (drop k s ≡ l.value)

-- A dash that begins the line is followed by a blank.
abbrev pub DashOk : Bytes → Type 0
DashOk [] = Unit
DashOk (c ∷ cs) = c ≡ b'-' → has_prefix (b'-' ∷ b' ' ∷ []) (c ∷ cs) ≡ true

length_of_prefix : (s : Bytes) → has_prefix (b'-' ∷ b' ' ∷ []) s ≡ true → 2 ≤ length s
unfolding has_prefix equal
length_of_prefix [] h = cc
length_of_prefix (x ∷ []) h = ground arith
length_of_prefix (x ∷ y ∷ s) h = omega arith

lex_list-Placed :
    (n : ℕ) (s : Bytes) → has_prefix (b'-' ∷ b' ' ∷ []) s ≡ true → Placed n s (lex_list n s)
unfolding lex_list
lex_list-Placed n s p =
    let (_, _, indent) = list_item_text n s (get_colon_index s) in
    rw p (2, indent, length_of_prefix s p, refl)

lex_mapping-Placed : (b : Block) (n : ℕ) (s : Bytes) → Placed n s (lex_mapping b n s).0
unfolding lex_mapping
lex_mapping-Placed b n s =
    if_intro {A = Line × Block} (λ p. Placed n s p.0) (not (is_mapping_node s))
      (λ _. (0, omega arith, omega arith, refl)) (λ _. of_key (get_colon_index s))
  where
    of_key : (o : Option ℕ) → Placed n s (key_line n s o)
    of_key none = (0, omega arith, omega arith, refl)
    of_key (some c) = (0, omega arith, omega arith, refl)

pub lex_content-Placed :
    (b : Block) (n : ℕ) (s : Bytes) → DashOk s → Placed n s (lex_content b n s).0
unfolding lex_content
lex_content-Placed b n [] d = (0, omega arith, omega arith, refl)
lex_content-Placed b n (c ∷ cs) d =
    if_intro {A = Line × Block} (λ p. Placed n (c ∷ cs) p.0) (c == b'#')
      (λ _. (0, omega arith, omega arith, refl))
      λ _.
        if_intro {A = Line × Block} (λ p. Placed n (c ∷ cs) p.0) (c == b'-')
          (λ dash. lex_list-Placed n (c ∷ cs) (d ((==_iff c b'-').0 dash)))
          (λ _. lex_mapping-Placed b n (c ∷ cs))

-- A part of the text of a line is the part of the whole line that is as far behind the indent.
pub slice-drop :
    (raw v : Bytes) (i a e : ℕ)
    → i ≤ length raw
    → drop i raw ≡ v
    → slice raw (i + a) (i + e) ≡ slice v a e
unfolding slice
slice-drop raw v i a e h same = rw (← same) (rw drop-take-drop (ground (arith, length-drop i raw)))

-- A mapping line has a colon.
abbrev pub MapsAt : Line → Type 0
MapsAt l = is_type l mapping ≡ true → (c : ℕ) × (l.colon ≡ some c)

lex_list-MapsAt : (n : ℕ) (s : Bytes) → MapsAt (lex_list n s)
unfolding lex_list is_type add_type
lex_list-MapsAt n s = go (get_colon_index s)
  where
    go :
        (o : Option ℕ)
        → MapsAt (
            if has_prefix (b'-' ∷ b' ' ∷ []) s
            then record (list_item n s o) {
              value = drop 2 s;
              colon = minus_two (list_item n s o).colon;
            }
            else list_item n s o)
    go none = if_intro MapsAt (has_prefix (b'-' ∷ b' ' ∷ []) s) (λ _ h. cc) (λ _ h. cc)
    go (some c) =
        if_intro MapsAt (has_prefix (b'-' ∷ b' ' ∷ []) s) (λ _ h. (c - 2, refl)) (λ _ h. (c, refl))

lex_mapping-MapsAt : (b : Block) (n : ℕ) (s : Bytes) → MapsAt (lex_mapping b n s).0
unfolding lex_mapping is_type
lex_mapping-MapsAt b n s =
    if_intro {A = Line × Block} (λ p. MapsAt p.0) (not (is_mapping_node s)) (λ _ h. cc)
      (λ _. of_key (get_colon_index s))
  where
    of_key : (o : Option ℕ) → MapsAt (key_line n s o)
    of_key none h = cc
    of_key (some c) h = (c, refl)

pub lex_content-MapsAt : (b : Block) (n : ℕ) (s : Bytes) → MapsAt (lex_content b n s).0
unfolding lex_content is_type
lex_content-MapsAt b n [] = λ h. cc
lex_content-MapsAt b n (c ∷ cs) =
    if_intro {A = Line × Block} (λ p. MapsAt p.0) (c == b'#') (λ _ h. cc)
      λ _.
        if_intro {A = Line × Block} (λ p. MapsAt p.0) (c == b'-') (λ _. lex_list-MapsAt n (c ∷ cs))
          (λ _. lex_mapping-MapsAt b n (c ∷ cs))
