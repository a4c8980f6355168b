-- ===== src/YamlPath/Parser/Termination.antt =====
-- `FromString` ends: each round of its loop moves the cursor.
use nobl9_language_server.Base.{
  ℕ, zero, suc, ◌+◌, ◌-◌, ◌<◌, ◌≤◌, ◌≢◌, refl, not, ◌||◌, Option, none, some, List, [], ◌∷◌, Exec,
  ok, err, panic, out_of_fuel, ◌>>=◌, length, drop, get_elem?, arith, if_intro, ltb, ltb→lt, ◌==◌,
  Bool-cases, Option-cases, inl, inr,
}
use nobl9_language_server.Text.{Bytes}
use nobl9_language_server.Text.Decimal.{value_from}
use nobl9_language_server.Text.Runes.{chars, encode_all}
use nobl9_language_server.YamlPath.{Step, selector, at_index, PathBuilder, chain}
use nobl9_language_server.YamlPath.Parser.{
  Parsed, scan_key, scan_quoted, closes_well, build_key, close_quoted, starts_quoted,
  parse_path_dot, leading_digits, behind_digits, build_index, close_index, parse_path_index,
  from_string_round, from_string_loop, from_string,
}

-- The call does not run out of fuel, and what it returns has its cursor behind `at'` and a length of
-- at most `len`.
abbrev Moves : ℕ → ℕ → Exec Parsed → Type 0
Moves at' len (ok s) = (at' < s.cursor) × (s.length ≤ len)
Moves at' len (err e) = Unit
Moves at' len panic = Unit
Moves at' len out_of_fuel = ⊥

chain-Moves :
    (at' len l e : ℕ) (b : PathBuilder) (s : Step)
    → at' < e
    → l ≤ len
    → Moves at' len (chain b s >>= λ b'. ok (record { builder = b'; length = l; cursor = e }))
chain-Moves at' len l e none s h k = tt
chain-Moves at' len l e (some steps) s h k = (h, k)

build_key-Moves :
    (at' len l e : ℕ) (b : PathBuilder) (key : List ℕ)
    → at' < e
    → l ≤ len
    → Moves at' len (build_key b key l e)
unfolding build_key
build_key-Moves at' len l e b [] h k = tt
build_key-Moves at' len l e b (c ∷ cs) h k =
    chain-Moves at' len l e b (selector (encode_all (c ∷ cs))) h k

build_index-Moves :
    (at' len l e : ℕ) (b : PathBuilder) (ds : List ℕ)
    → at' < e
    → l ≤ len
    → Moves at' len (build_index b ds l e)
unfolding build_index
build_index-Moves at' len l e b ds h k =
    if_intro (Moves at' len) (ltb 9223372036854775807 (value_from 0 ds)) (λ _. tt)
      (λ _. chain-Moves at' len l e b (at_index (value_from 0 ds)) h k)

close_index-Moves :
    (at' len l e : ℕ) (b : PathBuilder) (ds rest : List ℕ)
    → at' < e
    → l ≤ len
    → Moves at' len (close_index b ds rest l e)
unfolding close_index
close_index-Moves at' len l e b [] rest h k = tt
close_index-Moves at' len l e b (d ∷ ds) [] h k = tt
close_index-Moves at' len l e b (d ∷ ds) (c ∷ rest) h k =
    if_intro (Moves at' len) (not (c == b']')) (λ _. tt)
      (λ _. build_index-Moves at' len l e b (d ∷ ds) h k)

close_quoted-Moves :
    (at' len start : ℕ) (b : PathBuilder) (o : Option (List ℕ × ℕ × List ℕ))
    → at' < start
    → Moves at' len (close_quoted b len start o)
unfolding close_quoted
close_quoted-Moves at' len start b none h = tt
close_quoted-Moves at' len start b (some (key, removed, rest)) h =
    if_intro (Moves at' len) (closes_well rest)
      (λ _.
        build_key-Moves at' len (len - removed) (start + length key + 1) b key (omega arith)
          (omega arith))
      (λ _. tt)

bind_key-Moves :
    (at' len start : ℕ) (b : PathBuilder) (m : Exec (List ℕ))
    → at' < start
    → m ≢ out_of_fuel
    → Moves at' len (m >>= λ key. build_key b key len (start + length key))
bind_key-Moves at' len start b (ok key) h k =
    build_key-Moves at' len len (start + length key) b key (omega arith) (omega arith)
bind_key-Moves at' len start b (err e) h k = tt
bind_key-Moves at' len start b panic h k = tt
bind_key-Moves at' len start b out_of_fuel h k = k refl

scan_key_ends : (s : List ℕ) → scan_key s ≢ out_of_fuel
unfolding scan_key
scan_key_ends [] = λ h. cc
scan_key_ends (c ∷ cs) =
    if_intro NotStuck (c == b'$') (λ _ h. cc)
      λ _.
        if_intro NotStuck (c == b'.' || c == b'[') (λ _ h. cc)
          λ _. if_intro NotStuck (c == b']') (λ _ h. cc) λ _. later (scan_key cs) (scan_key_ends cs)
  where
    NotStuck : Exec (List ℕ) → Type 0
    NotStuck r = r ≢ out_of_fuel

    later : (r : Exec (List ℕ)) → NotStuck r → NotStuck (r >>= λ key. ok (c ∷ key))
    later (ok key) h = λ e. cc
    later (err x) h = λ e. cc
    later panic h = λ e. cc
    later out_of_fuel h = h

parse_path_dot-Moves :
    (b : PathBuilder) (buf : List ℕ) (cursor : ℕ)
    → Moves cursor (length buf) (parse_path_dot b buf cursor)
unfolding parse_path_dot
parse_path_dot-Moves b buf cursor =
    if_intro (Moves cursor (length buf)) (starts_quoted (drop (cursor + 1) buf))
      (λ _.
        close_quoted-Moves cursor (length buf) (cursor + 1 + 1) b
          (scan_quoted (drop (cursor + 1 + 1) buf)) (omega arith))
      (λ _.
        bind_key-Moves cursor (length buf) (cursor + 1) b (scan_key (drop (cursor + 1) buf))
          (omega arith) (scan_key_ends (drop (cursor + 1) buf)))

parse_path_index-Moves :
    (b : PathBuilder) (buf : List ℕ) (cursor : ℕ)
    → Moves cursor (length buf) (parse_path_index b buf cursor)
unfolding parse_path_index
parse_path_index-Moves b buf cursor =
    let s = drop (cursor + 1) buf in
    close_index-Moves cursor (length buf) (length buf) (cursor + 1 + length (leading_digits s) + 1)
      b (leading_digits s) (behind_digits s) (omega arith) (omega arith)

from_string_round-Moves :
    (buf : List ℕ) (c : ℕ) (s : Parsed)
    → s.length ≤ length buf
    → Moves s.cursor (length buf) (from_string_round buf c s)
unfolding from_string_round
from_string_round-Moves buf c s h =
    if_intro (Moves s.cursor (length buf)) (c == b'$') (λ _. (omega arith, h))
      λ _.
        if_intro (Moves s.cursor (length buf)) (c == b'.')
          (λ _. parse_path_dot-Moves s.builder buf s.cursor)
          λ _.
            if_intro (Moves s.cursor (length buf)) (c == b'[')
              (λ _. parse_path_index-Moves s.builder buf s.cursor) (λ _. tt)

bind_round :
    (at' len : ℕ) (r : Exec Parsed) (next : Parsed → Exec PathBuilder)
    → Moves at' len r
    → ((s : Parsed) → at' < s.cursor → s.length ≤ len → next s ≢ out_of_fuel)
    → (r >>= next) ≢ out_of_fuel
bind_round at' len (ok s) next (m, l) h = h s m l
bind_round at' len (err e) next m h = λ q. cc
bind_round at' len panic next m h = λ q. cc
bind_round at' len out_of_fuel next m h = absurd m

from_string_loop_ends :
    (fuel : ℕ) (buf : List ℕ) (s : Parsed)
    → length buf - s.cursor < fuel
    → s.length ≤ length buf
    → from_string_loop fuel buf s ≢ out_of_fuel
unfolding from_string_loop
from_string_loop_ends zero buf s h k = elim h [ ]
from_string_loop_ends (suc fuel) buf s h k = elim (Bool-cases (ltb s.cursor s.length)) [
  | inl inside ↦ elim (Option-cases (get_elem? buf s.cursor)) [
    | inl e ↦ rw (inside, e, from_string_loop) (λ q. cc)
    | inr (c, e) ↦
        rw (inside, e, from_string_loop)
          (bind_round s.cursor (length buf) (from_string_round buf c s) (from_string_loop fuel buf)
            (from_string_round-Moves buf c s k)
            (λ s' m l.
              from_string_loop_ends fuel buf s' (omega (arith, ltb→lt s.cursor s.length inside)) l))
  ]
  | inr outside ↦ rw (outside, from_string_loop) (λ q. cc)
]

-- `FromString` ends on every text.
pub from_string_ends : (s : Bytes) → from_string s ≢ out_of_fuel
unfolding from_string
from_string_ends s =
    from_string_loop_ends (length (chars s) + 1) (chars s)
      (record { builder = none; length = length (chars s); cursor = 0 }) (omega arith) (omega arith)
