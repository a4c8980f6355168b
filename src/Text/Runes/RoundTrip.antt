-- ===== src/Text/Runes/RoundTrip.antt =====
-- Decoding a string into runes loses no byte, and an ASCII rune is the one byte that it was.
use nobl9_language_server.Base.{
  ℕ, zero, suc, ◌<◌, ◌≡◌, refl, ap, ◌∙◌, List, [], ◌∷◌, ◌++◌, take, drop, take-append-drop, All,
  arith,
}
use nobl9_language_server.Text.Runes.{Rune, decode, runes_from, runes, bytes_of}

bytes_of-runes_from : (k : ℕ) (s : List ℕ) → bytes_of (runes_from k s) ≡ drop k s
unfolding runes_from bytes_of
bytes_of-runes_from zero [] = refl
bytes_of-runes_from (suc k) [] = refl
bytes_of-runes_from (suc k) (b ∷ bs) = bytes_of-runes_from k bs
bytes_of-runes_from zero (b ∷ bs) =
    ap (λ t. b ∷ (take (decode b bs).1 bs ++ t)) (bytes_of-runes_from (decode b bs).1 bs)
    ∙ ap (◌∷◌ b) (take-append-drop (decode b bs).1 bs)

-- The runes of a string put together again are the string.
pub bytes_of-runes : (s : List ℕ) → bytes_of (runes s) ≡ s
unfolding runes
bytes_of-runes s = bytes_of-runes_from 0 s

-- A rune below 128 is its own only byte.
abbrev pub IsExact : Rune → Type 0
IsExact r = r.char < 128 → (r.lead ≡ r.char) × (r.more ≡ [])

decode_ascii :
    (b : ℕ) (bs : List ℕ) → (decode b bs).0 < 128 → (b ≡ (decode b bs).0) × ((decode b bs).1 ≡ 0)
unfolding decode
decode_ascii b [] = ground arith
decode_ascii b (c ∷ []) = ground arith
decode_ascii b (c ∷ d ∷ []) = ground arith
decode_ascii b (c ∷ d ∷ e ∷ s) = ground arith

runes_from-IsExact : (k : ℕ) (s : List ℕ) → All IsExact (runes_from k s)
unfolding runes_from
runes_from-IsExact zero [] = tt
runes_from-IsExact (suc k) [] = tt
runes_from-IsExact (suc k) (b ∷ bs) = runes_from-IsExact k bs
runes_from-IsExact zero (b ∷ bs) = (
  λ h. let exact = decode_ascii b bs h in (exact.0, ap (λ n. take n bs) exact.1),
  runes_from-IsExact (decode b bs).1 bs,
)

-- A byte below 128 is a rune of its own.
abbrev pub IsLed : Rune → Type 0
IsLed r = r.lead < 128 → r.char ≡ r.lead

decode_led : (b : ℕ) (bs : List ℕ) → b < 128 → decode b bs ≡ (b, 0)
unfolding decode
decode_led b bs h = ground arith

runes_from-IsLed : (k : ℕ) (s : List ℕ) → All IsLed (runes_from k s)
unfolding runes_from
runes_from-IsLed zero [] = tt
runes_from-IsLed (suc k) [] = tt
runes_from-IsLed (suc k) (b ∷ bs) = runes_from-IsLed k bs
runes_from-IsLed zero (b ∷ bs) =
    (λ h. ap (λ p. p.0) (decode_led b bs h), runes_from-IsLed (decode b bs).1 bs)

pub runes-IsLed : (s : List ℕ) → All IsLed (runes s)
unfolding runes
runes-IsLed s = runes_from-IsLed 0 s

pub runes-cons :
    (b : ℕ) (s : List ℕ)
    → b < 128
    → runes (b ∷ s) ≡ record { char = b; lead = b; more = [] } ∷ runes s
unfolding runes runes_from
runes-cons b s h =
    ap (λ (p : ℕ × ℕ). record { char = p.0; lead = b; more = take p.1 s } ∷ runes_from p.1 s)
      (decode_led b s h)

pub runes-IsExact : (s : List ℕ) → All IsExact (runes s)
unfolding runes
runes-IsExact s = runes_from-IsExact 0 s
