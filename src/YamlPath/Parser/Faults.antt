-- ===== src/YamlPath/Parser/Faults.antt =====
-- A path that ends in the digits of an index.
use nobl9_language_server.Base.{
  All-weaken, ℕ, suc, ◌+◌, ◌<◌, ◌≡◌, ◌≢◌, refl, ap, ◌∙◌, true, some, List, [], ◌∷◌, ltb, All, panic,
  length, get_elem?, arith,
}
use nobl9_language_server.Text.Decimal.{is_digit}
use nobl9_language_server.Text.Runes.Ascii.{IsAscii, chars_of_ascii}
use nobl9_language_server.YamlPath.Parser.{
  Parsed, leading_digits, behind_digits, close_index, parse_path_index, from_string_round,
  from_string_loop, from_runes, from_string,
}
use nobl9_language_server.YamlPath.Parser.RoundTrip.Loop.{
  digit_low, loop_round, root_round, start, before,
}

leading_digits-whole :
    (ds : List ℕ)
    → All (λ c. is_digit c ≡ true) ds
    → (leading_digits ds ≡ ds) × (behind_digits ds ≡ [])
unfolding leading_digits behind_digits
leading_digits-whole [] h = (refl, refl)
leading_digits-whole (d ∷ ds) (digit, h) =
    let (l, b) = leading_digits-whole ds h in rw digit (ap (◌∷◌ d) l, b)

close_index-nil :
    (ds : List ℕ) (len end : ℕ) → ds ≢ [] → close_index (some []) ds [] len end ≡ panic
unfolding close_index
close_index-nil [] len end h = absurd (h refl)
close_index-nil (d ∷ ds) len end h = refl

parse_path_index-open :
    (ds : List ℕ)
    → All (λ c. is_digit c ≡ true) ds
    → ds ≢ []
    → parse_path_index (some []) (b'$' ∷ b'[' ∷ ds) 1 ≡ panic
unfolding parse_path_index
parse_path_index-open ds h some_digit =
    let (l, b) = leading_digits-whole ds h in rw (l, b) (close_index-nil ds _ _ some_digit)

loop_panics :
    (fuel : ℕ) (buf : List ℕ) (s : Parsed) (c : ℕ)
    → ltb s.cursor s.length ≡ true
    → get_elem? buf s.cursor ≡ some c
    → from_string_round buf c s ≡ panic
    → from_string_loop (suc fuel) buf s ≡ panic
unfolding from_string_loop
loop_panics fuel buf s c inside at round = rw (inside, from_string_loop) (rw at (rw round refl))

open_round :
    (ds : List ℕ) (len : ℕ)
    → All (λ c. is_digit c ≡ true) ds
    → ds ≢ []
    → from_string_round (b'$' ∷ b'[' ∷ ds) b'[' (before [] len 1) ≡ panic
unfolding from_string_round
open_round ds len h some_digit = parse_path_index-open ds h some_digit

-- `FromString` panics on every text that is the root, an opening bracket and one or more digits: it
-- looks for the closing bracket behind the end of the buffer.
pub from_string-open_index :
    (ds : List ℕ)
    → All (λ c. is_digit c ≡ true) ds
    → ds ≢ []
    → from_string (b'$' ∷ b'[' ∷ ds) ≡ panic
unfolding from_string from_runes
from_string-open_index ds digits some_digit =
    let low : IsAscii (b'$' ∷ b'[' ∷ ds) = (
      omega arith,
      (omega arith, All-weaken (λ x. is_digit x ≡ true) (λ x. x < 128) digit_low ds digits),
    ) in
    let len = suc (suc (length ds)) in
    let fuel : suc (suc (length ds)) + 1 ≡ suc (suc (length ds + 1)) = omega arith in
    rw (chars_of_ascii (b'$' ∷ b'[' ∷ ds) low) (
      ap (λ n. from_string_loop n (b'$' ∷ b'[' ∷ ds) (start len)) fuel
      ∙ loop_round (suc (length ds + 1)) (b'$' ∷ b'[' ∷ ds) (start len) (before [] len 1) b'$'
          (ground arith) refl (root_round (b'$' ∷ b'[' ∷ ds) len)
      ∙ loop_panics (length ds + 1) (b'$' ∷ b'[' ∷ ds) (before [] len 1) b'[' (ground arith) refl
          (open_round ds len digits some_digit))
