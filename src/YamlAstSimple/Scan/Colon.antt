-- ===== src/YamlAstSimple/Scan/Colon.antt =====
-- What `getColonIndex` finds is a colon of the line, and never its first byte.
use nobl9_language_server.Base.{
  ℕ, ◌+◌, ◌<◌, ◌≡◌, ◌≢◌, refl, ap, ◌∙◌, true, none, some, List, [], ◌∷◌, ◌++◌, length,
  length-append, get_elem?, get_elem?-append_right, All, arith,
}
use nobl9_language_server.Text.{Bytes}
use nobl9_language_server.Text.Runes.{Rune, width, runes, bytes_of, is_space}
use nobl9_language_server.Text.Runes.RoundTrip.{IsExact, runes-IsExact, bytes_of-runes}
use nobl9_language_server.YamlAstSimple.Scan.{
  Quoting, Round, return, go_on, colon_round, colon_from, get_colon_index, unquoted,
}

-- A round returns nothing, or the index that it is at, on a colon; not before the key has begun.
colon_round-return :
    (q : Quoting) (i r j : ℕ)
    → colon_round q i r ≡ return (some j)
    → (j ≡ i) × (r ≡ b':') × (q.key_started ≡ true)
unfolding colon_round is_space
colon_round-return q i r j h = ground arith

none-ne-some : {a : ℕ} → none ≢ some a
none-ne-some h = cc

-- A colon was found `k` bytes behind `i`.
abbrev FoundAt : ℕ → ℕ → Bytes → Type 0
FoundAt i j bs = (k : ℕ) × (j ≡ i + k) × (k < length bs) × (get_elem? bs k ≡ some b':')

FoundAt-append : (i j : ℕ) (xs bs : Bytes) → FoundAt (i + length xs) j bs → FoundAt i j (xs ++ bs)
FoundAt-append i j xs bs (k, at', inside, colon) = (
  length xs + k,
  omega arith,
  omega (arith, length-append xs bs),
  get_elem?-append_right xs bs k ∙ colon,
)

colon_from-FoundAt :
    (q : Quoting) (i : ℕ) (rs : List Rune) {j : ℕ}
    → All IsExact rs
    → colon_from q i rs ≡ some j
    → FoundAt i j (bytes_of rs)
unfolding colon_from bytes_of
colon_from-FoundAt q i [] x h = cc
colon_from-FoundAt q i (r ∷ rs) {j} (exact, x) h =
    go (λ q' e. colon_from-FoundAt q' (i + width r) rs x e) (colon_round q i r.char) refl
  where
    go :
        ((q' : Quoting)
          → colon_from q' (i + width r) rs ≡ some j
          → FoundAt (i + width r) j (bytes_of rs))
        → (d : Round) → colon_round q i r.char ≡ d
        → FoundAt i j (bytes_of (r ∷ rs))
    go later (return none) e = absurd (none-ne-some (rw (e, colon_from) at h))
    go later (return (some k)) e =
        let (same, colon, started) = colon_round-return q i r.char k e in
        let (lead, more) = exact (rw colon (omega arith)) in
        let here : some k ≡ some j = rw (e, colon_from) at h in
        (0, ground arith, omega arith, ap some (lead ∙ colon))
    go later (go_on q') e =
        FoundAt-append i j (r.lead ∷ r.more) (bytes_of rs) (later q' (rw (e, colon_from) at h))

-- Where `getColonIndex` finds an index, the line has a colon there.
pub get_elem?-get_colon_index :
    (s : Bytes) {j : ℕ} → get_colon_index s ≡ some j → (j < length s) × (get_elem? s j ≡ some b':')
unfolding get_colon_index
get_elem?-get_colon_index s {j} h =
    let (k, at', inside, colon) =
      rw (bytes_of-runes s) at
        (colon_from-FoundAt unquoted 0 (runes s) {j = j} (runes-IsExact s) h) in
    let same : k ≡ j = omega arith in rw (← same) (inside, colon)
