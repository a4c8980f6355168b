-- ===== src/YamlPath/Tests.antt =====
-- Paths read and printed.
use nobl9_language_server.Base.{◌≡◌, refl, some, [], ◌∷◌, ok, err, panic, invalid_path}
use nobl9_language_server.Text.{codes}
use nobl9_language_server.Text.Runes.{chars, encode_all}
use nobl9_language_server.Text.Decimal.{value_from}
use nobl9_language_server.Base.{List, ℕ, zero, suc, ◌≢◌, out_of_fuel, ◌==◌}
use nobl9_language_server.YamlPath.Filter.{Ast, View, mapping, sequence, other, filter, filter_node}
use nobl9_language_server.YamlPath.Filter.Longest.{shorten, outcome, EndsAt, filter_node-EndsAt}
use nobl9_language_server.YamlPath.Parser.Termination.{from_string_ends}
use nobl9_language_server.YamlPath.Parser.RoundTrip.Steps.{IsPrintable}
use nobl9_language_server.YamlPath.Parser.RoundTrip.Loop.{from_string-path_string}
use nobl9_language_server.Text.{has_suffix}
use nobl9_language_server.YamlPath.Match.{match}
use nobl9_language_server.YamlPath.Match.Segments.{
  Segment, key, subscript, IsSegment, path_text, match-path_text, fits,
}
use nobl9_language_server.YamlPath.Parser.Faults.{from_string-open_index}
use nobl9_language_server.Text.Decimal.{is_digit}
use nobl9_language_server.Base.{All, arith, inl, inr}
use nobl9_language_server.Text.{contains, has_prefix, equal}
use nobl9_language_server.YamlPath.{path_string, Step, selector, at_index}
use nobl9_language_server.YamlPath.Parser.{from_string}

from_string_runs :
    (from_string (codes "$.a.'b.c'[12].d")
      ≡ ok (
          some (
            selector (codes "a")
            ∷ selector (codes "b.c")
            ∷ at_index 12
            ∷ selector (codes "d")
            ∷ [])))
    × (from_string (codes "$.a.'b\\'c'.d") ≡ err invalid_path)
    × (from_string (codes "$.a.'b\\'c'")
        ≡ ok (some (selector (codes "a") ∷ selector (codes "b'c") ∷ [])))
    × (from_string (codes "$.a[1") ≡ panic)
    × (from_string (codes ".a") ≡ panic)
unfolding from_string codes chars value_from encode_all
from_string_runs = (refl, refl, refl, refl, refl)

from_string_ends_example : from_string (codes "$.a['b") ≢ out_of_fuel
from_string_ends_example = from_string_ends (codes "$.a['b")

-- The tree of `a: [x]`, of which the nodes are numbered from the root.
abbrev small_view : ℕ → View ℕ
small_view zero = mapping (record { key = codes "a"; value = 2; entry = 1 } ∷ [])
small_view (suc (suc zero)) = sequence (3 ∷ [])
small_view _ = other

abbrev small : Ast
small = record { Node = ℕ; view = small_view }

abbrev deep : List Step
deep = selector (codes "b") ∷ at_index 0 ∷ []

filter_node-EndsAt_example :
    (k : ℕ) × EndsAt small 0 deep k
    × (filter_node small deep (some 0) ≡ outcome (k == 0) (filter small (shorten k deep) 0))
    × (filter_node small deep (some 0) ≢ out_of_fuel)
filter_node-EndsAt_example = filter_node-EndsAt small 0 deep

abbrev printed : List Step
printed = selector (codes "a") ∷ at_index 12 ∷ selector (codes "b.c") ∷ []

printable : All IsPrintable printed
unfolding codes contains has_prefix equal
printable = (
  inl (
    (omega arith, omega arith, omega arith, omega arith, omega arith, omega arith, omega arith),
    tt,
  ),
  (
    omega arith,
    (
      inr (
        (
          (omega arith, omega arith, omega arith),
          ((omega arith, omega arith, omega arith), ((omega arith, omega arith, omega arith), tt)),
        ),
        refl,
      ),
      tt,
    ),
  ),
)

from_string-path_string_example : from_string (path_string printed) ≡ ok (some printed)
from_string-path_string_example = from_string-path_string printed printable

from_string-open_index_example : from_string (b'$' ∷ b'[' ∷ b'0' ∷ b'7' ∷ []) ≡ panic
unfolding is_digit
from_string-open_index_example =
    from_string-open_index (b'0' ∷ b'7' ∷ []) (refl, (refl, tt)) (λ e. cc)

-- `$.spec.slos[*].name` against `$.spec.slos[3].name`.
abbrev pattern_segments : List Segment
pattern_segments =
    key (codes "spec") ∷ key (codes "slos") ∷ subscript (codes "*") ∷ key (codes "name") ∷ []

abbrev concrete_segments : List Segment
concrete_segments =
    key (codes "spec") ∷ key (codes "slos") ∷ subscript (codes "3") ∷ key (codes "name") ∷ []

segments_free :
    All IsSegment pattern_segments × All IsSegment concrete_segments × IsSegment (key (codes "$"))
unfolding codes has_suffix has_prefix equal
segments_free = (
  (
    (
      λ e. cc,
      (
        (omega arith, omega arith),
        (
          (omega arith, omega arith),
          ((omega arith, omega arith), ((omega arith, omega arith), tt)),
        ),
      ),
      refl,
    ),
    (
      (
        λ e. cc,
        (
          (omega arith, omega arith),
          (
            (omega arith, omega arith),
            ((omega arith, omega arith), ((omega arith, omega arith), tt)),
          ),
        ),
        refl,
      ),
      (
        ((omega arith, omega arith), tt),
        (
          (
            λ e. cc,
            (
              (omega arith, omega arith),
              (
                (omega arith, omega arith),
                ((omega arith, omega arith), ((omega arith, omega arith), tt)),
              ),
            ),
            refl,
          ),
          tt,
        ),
      ),
    ),
  ),
  (
    (
      λ e. cc,
      (
        (omega arith, omega arith),
        (
          (omega arith, omega arith),
          ((omega arith, omega arith), ((omega arith, omega arith), tt)),
        ),
      ),
      refl,
    ),
    (
      (
        λ e. cc,
        (
          (omega arith, omega arith),
          (
            (omega arith, omega arith),
            ((omega arith, omega arith), ((omega arith, omega arith), tt)),
          ),
        ),
        refl,
      ),
      (
        ((omega arith, omega arith), tt),
        (
          (
            λ e. cc,
            (
              (omega arith, omega arith),
              (
                (omega arith, omega arith),
                ((omega arith, omega arith), ((omega arith, omega arith), tt)),
              ),
            ),
            refl,
          ),
          tt,
        ),
      ),
    ),
  ),
  (λ e. cc, ((omega arith, omega arith), tt), refl),
)

match-path_text_example :
    match (path_text (codes "$") pattern_segments) (path_text (codes "$") concrete_segments)
    ≡ some (fits (key (codes "$") ∷ pattern_segments) (key (codes "$") ∷ concrete_segments))
match-path_text_example =
    match-path_text (codes "$") (codes "$") pattern_segments concrete_segments segments_free.2
      segments_free.0 segments_free.2 segments_free.1
