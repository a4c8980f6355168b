-- ===== src/Text/Decimal.antt =====
-- `strconv.Itoa` on what is not negative, and reading such digits.
use nobl9_language_server.Base.{
  ℕ, zero, suc, ◌+◌, ◌-◌, ◌*◌, ◌/◌, ◌%◌, ◌<◌, ◌≡◌, refl, Bool, ◌&&◌, inl, inr, Bool-cases, true,
  List, [], ◌∷◌, ◌++◌, ltb, leb, if◌then◌else◌, All, All-append, arith,
}

unfoldable pub is_digit : ℕ → Bool
is_digit c = leb b'0' c && leb c b'9'

-- On fuel; a number is below itself plus one, so that is enough.
unfoldable pub digits : ℕ → ℕ → List ℕ
digits zero n = []
digits (suc fuel) n =
    let front = digits fuel (n / 10) in
    if ltb n 10 then (n + b'0') ∷ [] else front ++ (n % 10 + b'0') ∷ []

unfoldable pub itoa : ℕ → List ℕ
unfolding digits
itoa n = digits (n + 1) n

-- The number that a text of digits stands for.
unfoldable pub value_from : ℕ → List ℕ → ℕ
value_from acc [] = acc
value_from acc (c ∷ cs) = value_from (acc * 10 + (c - b'0')) cs

value_from-append :
    (acc : ℕ) (xs : List ℕ) (c : ℕ)
    → value_from acc (xs ++ c ∷ []) ≡ value_from acc xs * 10 + (c - b'0')
unfolding value_from
value_from-append acc [] c = refl
value_from-append acc (x ∷ xs) c = value_from-append (acc * 10 + (x - b'0')) xs c

digits_lem : (fuel n : ℕ) → n < fuel → value_from 0 (digits fuel n) ≡ n
unfolding digits value_from
digits_lem zero n h = elim h [ ]
digits_lem (suc fuel) n h =
    ground
      (arith, digits_lem fuel (n / 10), value_from-append 0 (digits fuel (n / 10)) (n % 10 + b'0'))

-- Reading back what `strconv.Itoa` wrote gives the number.
pub value_from-itoa : (n : ℕ) → value_from 0 (itoa n) ≡ n
unfolding itoa
value_from-itoa n = digits_lem (n + 1) n (omega arith)

digits-All : (fuel n : ℕ) → All (λ c. is_digit c ≡ true) (digits fuel n)
unfolding digits is_digit
digits-All zero n = tt
digits-All (suc fuel) n = elim (Bool-cases (ltb n 10)) [
  | inl small ↦ rw small (ground arith, tt)
  | inr big ↦ rw big (
      All-append (λ c. is_digit c ≡ true) (digits fuel (n / 10)) ((n % 10 + b'0') ∷ [])
        (digits-All fuel (n / 10)) (ground arith, tt))
]

pub itoa-All : (n : ℕ) → All (λ c. is_digit c ≡ true) (itoa n)
unfolding itoa
itoa-All n = digits-All (n + 1) n
