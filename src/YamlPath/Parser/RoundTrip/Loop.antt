-- ===== src/YamlPath/Parser/RoundTrip/Loop.antt =====
-- The loop reads the steps that were printed, one in each round.
use nobl9_language_server.Base.{
  All-weaken, ℕ, zero, suc, ◌+◌, ◌<◌, ◌≤◌, ◌≡◌, refl, sym, ap, ◌∙◌, inl, inr, true, false, none,
  some, List, [], ◌∷◌, ◌++◌, ltb, All, All-append, append_assoc, append-nil, ok, length,
  length-append, get_elem?, get_elem?-append_length, arith,
}
use mathlib.Core.Path.{subst}
use nobl9_language_server.Text.Decimal.{itoa, is_digit, itoa-All}
use nobl9_language_server.Text.Runes.Ascii.{IsAscii, chars_of_ascii}
use nobl9_language_server.YamlPath.{
  Step, selector, at_index, normalize_selector_name, step_string, steps_string, path_string,
}
use nobl9_language_server.YamlPath.Parser.{
  Parsed, from_string_round, from_string_loop, from_runes, from_string,
}
use nobl9_language_server.YamlPath.Parser.RoundTrip.{IsPlain, IsQuotable, Follows}
use nobl9_language_server.YamlPath.Parser.RoundTrip.Steps.{
  IsPrintable, built, normalize-plain, normalize-quotable, parse_dot-plain, parse_dot-quotable,
  parse_index-digits,
}

abbrev pub before : List Step → ℕ → ℕ → Parsed
before done len cursor = record { builder = some done; length = len; cursor = cursor }

-- A round at the printed step, which has `first` as its first character, adds the step.
abbrev Reads : List Step → List ℕ → Step → List ℕ → Type 0
Reads done pre s tail =
    (first : ℕ) × (behind : List ℕ) × (step_string s ++ tail ≡ first ∷ behind)
    × (from_string_round (pre ++ first ∷ behind) first
          (before done (length (pre ++ first ∷ behind)) (length pre))
        ≡ ok (built done s (length (pre ++ first ∷ behind)) (length pre + length (step_string s))))

quoted_assoc :
    (key tail : List ℕ)
    → (b'.' ∷ b'\'' ∷ (key ++ b'\'' ∷ [])) ++ tail ≡ b'.' ∷ b'\'' ∷ (key ++ b'\'' ∷ tail)
quoted_assoc key tail = ap (λ k. b'.' ∷ b'\'' ∷ k) (append_assoc key (b'\'' ∷ []) tail)

reads :
    (done : List Step) (pre : List ℕ) (s : Step) (tail : List ℕ)
    → IsPrintable s
    → Follows tail
    → Reads done pre s tail
unfolding step_string from_string_round
reads done pre (selector []) tail p f = absurd p
reads done pre (selector (c ∷ cs)) tail (inl plain) f =
    let text = (c ∷ cs) ++ tail in
    let end : length pre + 1 + length (c ∷ cs) ≡ length pre + suc (length (c ∷ cs)) = omega arith in
    rw (normalize-plain c cs plain) (
      b'.',
      text,
      refl,
      parse_dot-plain done pre c cs tail plain f
          ∙ ap (λ n. ok (built done (selector (c ∷ cs)) (length (pre ++ b'.' ∷ text)) n)) end,
    )
reads done pre (selector (c ∷ cs)) tail (inr (quotable, special)) f =
    let text = b'\'' ∷ ((c ∷ cs) ++ b'\'' ∷ tail) in
    let total = length-append (c ∷ cs) (b'\'' ∷ []) in
    let end : length pre + 1 + 1 + length (c ∷ cs) + 1
        ≡ length pre + suc (suc (length ((c ∷ cs) ++ b'\'' ∷ []))) =
      omega arith in
    rw (normalize-quotable c cs quotable special) (
      b'.',
      text,
      quoted_assoc (c ∷ cs) tail,
      parse_dot-quotable done pre c cs tail quotable f
          ∙ ap (λ n. ok (built done (selector (c ∷ cs)) (length (pre ++ b'.' ∷ text)) n)) end,
    )
reads done pre (at_index i) tail small f =
    let text = itoa i ++ b']' ∷ tail in
    let total = length-append (itoa i) (b']' ∷ []) in
    let end : length pre + 1 + length (itoa i) + 1
        ≡ length pre + suc (length (itoa i ++ b']' ∷ [])) =
      omega arith in
    (
      b'[',
      text,
      ap (◌∷◌ b'[') (append_assoc (itoa i) (b']' ∷ []) tail),
      parse_index-digits done pre i tail small
          ∙ ap (λ n. ok (built done (at_index i) (length (pre ++ b'[' ∷ text)) n)) end,
    )

pub digit_low : (x : ℕ) → is_digit x ≡ true → x < 128
unfolding is_digit
digit_low x h = ground arith

steps_string-Follows : (steps : List Step) → Follows (steps_string steps)
unfolding steps_string step_string
steps_string-Follows [] = tt
steps_string-Follows (selector name ∷ steps) = inl refl
steps_string-Follows (at_index i ∷ steps) = inr refl

inside_of : (pre : List ℕ) (x : ℕ) (xs : List ℕ) → ltb (length pre) (length (pre ++ x ∷ xs)) ≡ true
inside_of pre x xs = let total = length-append pre (x ∷ xs) in ground arith

pub loop_round :
    (fuel : ℕ) (buf : List ℕ) (s t : Parsed) (c : ℕ)
    → ltb s.cursor s.length ≡ true
    → get_elem? buf s.cursor ≡ some c
    → from_string_round buf c s ≡ ok t
    → from_string_loop (suc fuel) buf s ≡ from_string_loop fuel buf t
unfolding from_string_loop
loop_round fuel buf s t c inside at round = rw (inside, from_string_loop) (rw at (rw round refl))

loop_reads :
    (steps done : List Step) (pre : List ℕ) (fuel : ℕ)
    → All IsPrintable steps
    → length steps < fuel
    → from_string_loop fuel
        (pre ++ steps_string steps)
        (before done (length (pre ++ steps_string steps)) (length pre))
      ≡ ok (some (done ++ steps))
unfolding from_string_loop steps_string
loop_reads steps done pre zero p h = absurd (omega arith)
loop_reads [] done pre (suc fuel) p h =
    let full : ltb (length pre) (length (pre ++ [])) ≡ false = rw (append-nil pre) (ground arith) in
    rw (full, from_string_loop) (ap (λ ss. ok (some ss)) (sym (append-nil done)))
loop_reads (s ∷ steps) done pre (suc fuel) (here, p) h =
    let (first, behind, e, round) =
      reads done pre s (steps_string steps) here (steps_string-Follows steps) in
    let text = pre ++ first ∷ behind in
    let same : (pre ++ step_string s) ++ steps_string steps ≡ text =
      append_assoc pre (step_string s) (steps_string steps) ∙ ap (λ k. pre ++ k) e in
    let next = loop_reads steps (done ++ s ∷ []) (pre ++ step_string s) fuel p (omega arith) in
    subst
      (λ k.
        from_string_loop (suc fuel) (pre ++ k) (before done (length (pre ++ k)) (length pre))
        ≡ ok (some (done ++ s ∷ steps)))
      (sym e)
      (loop_round fuel text (before done (length text) (length pre))
          (built done s (length text) (length pre + length (step_string s))) first
          (inside_of pre first behind) (get_elem?-append_length pre behind first) round
        ∙ ap
            (λ b.
              from_string_loop fuel b
                (built done s (length b) (length pre + length (step_string s))))
            (sym same)
        ∙ ap
            (λ n.
              from_string_loop fuel ((pre ++ step_string s) ++ steps_string steps)
                (built done s (length ((pre ++ step_string s) ++ steps_string steps)) n))
            (sym (length-append pre (step_string s)))
        ∙ next
        ∙ ap (λ ss. ok (some ss)) (append_assoc done (s ∷ []) steps))

-- What is printed of such steps is ASCII.
pub step_string-IsAscii : (s : Step) → IsPrintable s → IsAscii (step_string s)
unfolding step_string
step_string-IsAscii (selector []) p = absurd p
step_string-IsAscii (selector (c ∷ cs)) (inl plain) =
    rw (normalize-plain c cs plain)
      (omega arith, All-weaken IsPlain (λ x. x < 128) (λ x q. q.0) (c ∷ cs) plain)
step_string-IsAscii (selector (c ∷ cs)) (inr (quotable, special)) =
    rw (normalize-quotable c cs quotable special) (
      omega arith,
      (
        omega arith,
        All-append (λ x. x < 128) (c ∷ cs) (b'\'' ∷ [])
            (All-weaken IsQuotable (λ x. x < 128) (λ x q. q.0) (c ∷ cs) quotable) (omega arith, tt),
      ),
    )
step_string-IsAscii (at_index i) p = (
  omega arith,
  All-append (λ x. x < 128) (itoa i) (b']' ∷ [])
      (All-weaken (λ x. is_digit x ≡ true) (λ x. x < 128) digit_low (itoa i) (itoa-All i))
      (omega arith, tt),
)

steps_string-IsAscii : (steps : List Step) → All IsPrintable steps → IsAscii (steps_string steps)
unfolding steps_string
steps_string-IsAscii [] p = tt
steps_string-IsAscii (s ∷ steps) (here, p) =
    All-append (λ x. x < 128) (step_string s) (steps_string steps) (step_string-IsAscii s here)
      (steps_string-IsAscii steps p)

length-steps_string : (steps : List Step) → length steps ≤ length (steps_string steps)
unfolding steps_string step_string
length-steps_string [] = omega arith
length-steps_string (selector name ∷ steps) =
    let rest = length-steps_string steps in
    omega (arith, length-append (normalize_selector_name name) (steps_string steps))
length-steps_string (at_index i ∷ steps) =
    let rest = length-steps_string steps in
    omega (arith, length-append (itoa i ++ b']' ∷ []) (steps_string steps))

-- The state in front of the root, and the round at it.
abbrev pub start : ℕ → Parsed
start len = record { builder = none; length = len; cursor = 0 }

pub root_round :
    (buf : List ℕ) (len : ℕ) → from_string_round buf b'$' (start len) ≡ ok (before [] len 1)
unfolding from_string_round
root_round buf len = refl

-- `FromString` of what `String` prints gives back the path, if its keys are not empty, without quotes
-- and backslashes, of ASCII, and have `$`, `[` or `]` only beside a dot or a star, and its indexes
-- are below 2 ^ 63.
pub from_string-path_string :
    (steps : List Step) → All IsPrintable steps → from_string (path_string steps) ≡ ok (some steps)
unfolding from_string from_runes path_string
from_string-path_string steps p =
    let low : IsAscii (b'$' ∷ steps_string steps) = (omega arith, steps_string-IsAscii steps p) in
    let one_more : suc (length (steps_string steps)) + 1 ≡ suc (length (steps_string steps) + 1) =
      omega arith in
    rw (chars_of_ascii (b'$' ∷ steps_string steps) low) (
      ap
        (λ fuel.
          from_string_loop fuel (b'$' ∷ steps_string steps)
            (start (suc (length (steps_string steps)))))
        one_more
      ∙ loop_round (length (steps_string steps) + 1) (b'$' ∷ steps_string steps)
          (start (suc (length (steps_string steps))))
          (before [] (suc (length (steps_string steps))) 1) b'$' (ground arith) refl
          (root_round (b'$' ∷ steps_string steps) (suc (length (steps_string steps))))
      ∙ loop_reads steps [] (b'$' ∷ []) (length (steps_string steps) + 1) p
          (omega (arith, length-steps_string steps)))
