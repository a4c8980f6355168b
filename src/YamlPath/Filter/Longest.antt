-- ===== src/YamlPath/Filter/Longest.antt =====
-- `FilterNode` falls back to the longest prefix of the path that names a node.
use nobl9_language_server.Base.{
  ℕ, zero, suc, ◌+◌, ◌-◌, ◌<◌, ◌≤◌, ◌≡◌, ◌≢◌, ◌⊎◌, inl, inr, refl, sym, ap, ◌∙◌, Bool, true, false,
  ◌&&◌, Option, none, some, List, [], ◌∷◌, ◌==◌, Exec, ok, err, panic, out_of_fuel, ◌>>=◌, length,
  take, arith,
}
use mathlib.Core.Path.{subst, ap₂}
use nobl9_language_server.YamlPath.{Step, remove_child}
use nobl9_language_server.YamlPath.Filter.Ends.{filter_ends}
use nobl9_language_server.YamlPath.Filter.{Ast, filter, filter_option, filter_loop, filter_node}

-- The path without its last `k` steps.
abbrev pub shorten : ℕ → List Step → List Step
shorten k steps = take (length steps - k) steps

take-all : (steps : List Step) → take (length steps) steps ≡ steps
take-all [] = refl
take-all (s ∷ steps) = ap (◌∷◌ s) (take-all steps)

shorten_zero : (steps : List Step) → shorten 0 steps ≡ steps
shorten_zero steps = ap (λ j. take j steps) (omega arith) ∙ take-all steps

length-remove_child :
    (s : Step) (steps : List Step) → length (remove_child (s ∷ steps)) ≡ length steps
unfolding remove_child
length-remove_child s [] = refl
length-remove_child s (t ∷ steps) = ap suc (length-remove_child t steps)

take-remove_child :
    (s : Step) (steps : List Step) (j : ℕ)
    → j ≤ length steps
    → take j (remove_child (s ∷ steps)) ≡ take j (s ∷ steps)
unfolding remove_child
take-remove_child s steps zero h = refl
take-remove_child s [] (suc j) h = absurd (omega arith)
take-remove_child s (t ∷ steps) (suc j) h = ap (◌∷◌ s) (take-remove_child t steps j (omega arith))

shorten-remove_child :
    (s : Step) (steps : List Step) (k : ℕ)
    → shorten k (remove_child (s ∷ steps)) ≡ shorten (suc k) (s ∷ steps)
shorten-remove_child s steps k =
    ap (λ m. take (m - k) (remove_child (s ∷ steps))) (length-remove_child s steps)
    ∙ take-remove_child s steps (length steps - k) (omega arith)
    ∙ ap (λ j. take j (s ∷ steps)) (omega arith)

-- What `FilterNode` returns when the search ends with this result.
abbrev pub outcome : {Node : Type 0} → Bool → Exec (Option Node) → Exec (Node × Bool)
outcome first (ok (some n)) = ok (n, first)
outcome first (ok none) = out_of_fuel
outcome first (err e) = err e
outcome first panic = panic
outcome first out_of_fuel = out_of_fuel

and_true : (b : Bool) → (b && 0 == 0) ≡ b
and_true true = refl
and_true false = refl

and_false : (b : Bool) (k : ℕ) → (b && suc k == 0) ≡ false
and_false true k = ground arith
and_false false k = refl

module _ (ast : Ast) (n : ast.Node) where
  -- The search ends `k` steps before the end of the path: no longer prefix names a node, and this
  -- one does, or is refused.
  pub record EndsAt (steps : List Step) (k : ℕ) : Type 0 where
    pub fits : k ≤ length steps
    pub before : (j : ℕ) → j < k → filter ast (shorten j steps) n ≡ ok none
    pub ends : filter ast (shorten k steps) n ≢ ok none

  root_ends : filter ast [] n ≢ ok none
  unfolding filter
  root_ends h = cc

  Result-cases :
      {A : Type 0} (r : Exec (Option A))
      → (r ≡ ok none)
        ⊎ ((r ≢ ok none)
            × ((first : Bool) (rest : Exec (A × Bool))
                → (r >>= elim [ some a ↦ ok (a, first) | none ↦ rest ]) ≡ outcome first r))
  Result-cases (ok none) = inl refl
  Result-cases (ok (some a)) = inr ((λ h. cc), λ first rest. refl)
  Result-cases (err e) = inr ((λ h. cc), λ first rest. refl)
  Result-cases panic = inr ((λ h. cc), λ first rest. refl)
  Result-cases out_of_fuel = inr ((λ h. cc), λ first rest. refl)

  ends_here : (steps : List Step) → filter ast steps n ≢ ok none → EndsAt steps 0
  ends_here steps ends = record {
    fits = omega arith;
    before = λ j h. absurd (omega arith);
    ends = subst (λ p. filter ast p n ≢ ok none) (sym (shorten_zero steps)) ends;
  }

  before-cons :
      (s : Step) (steps : List Step) (k : ℕ)
      → filter ast (s ∷ steps) n ≡ ok none
      → EndsAt (remove_child (s ∷ steps)) k
      → (j : ℕ) → j < suc k
      → filter ast (shorten j (s ∷ steps)) n ≡ ok none
  before-cons s steps k missed e zero h =
      ap (λ p. filter ast p n) (shorten_zero (s ∷ steps)) ∙ missed
  before-cons s steps k missed e (suc j) h =
      ap (λ p. filter ast p n) (sym (shorten-remove_child s steps j)) ∙ e.before j (omega arith)

  ends_later :
      (s : Step) (steps : List Step) (k : ℕ)
      → filter ast (s ∷ steps) n ≡ ok none
      → EndsAt (remove_child (s ∷ steps)) k
      → EndsAt (s ∷ steps) (suc k)
  ends_later s steps k missed e = record {
    fits = omega (arith, e.fits, length-remove_child s steps);
    before = before-cons s steps k missed e;
    ends = subst (λ p. filter ast p n ≢ ok none) (shorten-remove_child s steps k) e.ends;
  }

  filter_loop-EndsAt :
      (fuel : ℕ) (first : Bool) (steps : List Step)
      → length steps < fuel
      → (k : ℕ) × EndsAt steps k
        × (filter_loop ast fuel first steps (some n)
            ≡ outcome (first && k == 0) (filter ast (shorten k steps) n))
  unfolding filter_loop filter_option
  filter_loop-EndsAt zero first steps h = absurd (omega arith)
  filter_loop-EndsAt (suc fuel) first [] h =
      (0, ends_here [] root_ends, ap (λ b. ok (n, b)) (sym (and_true first)))
  filter_loop-EndsAt (suc fuel) first (s ∷ steps) h =
      elim (Result-cases (filter ast (s ∷ steps) n)) [
        | inl missed ↦
            let (k, e, r) =
              filter_loop-EndsAt fuel false (remove_child (s ∷ steps))
                (omega (arith, length-remove_child s steps)) in
            (
              suc k,
              ends_later s steps k missed e,
              rw (missed, and_false first k)
                  (r ∙ ap (λ p. outcome false (filter ast p n)) (shorten-remove_child s steps k)),
            )
        | inr (ends, result) ↦ (
          0,
          ends_here (s ∷ steps) ends,
          result first _
              ∙ ap₂ (λ b p. outcome b (filter ast p n)) (sym (and_true first))
                  (sym (shorten_zero (s ∷ steps))),
        )
      ]

  outcome-ne-out_of_fuel :
      (first : Bool) (r : Exec (Option ast.Node))
      → r ≢ ok none
      → r ≢ out_of_fuel
      → outcome first r ≢ out_of_fuel
  outcome-ne-out_of_fuel first (ok none) h g = absurd (h refl)
  outcome-ne-out_of_fuel first (ok (some m)) h g = λ e. cc
  outcome-ne-out_of_fuel first (err x) h g = λ e. cc
  outcome-ne-out_of_fuel first panic h g = λ e. cc
  outcome-ne-out_of_fuel first out_of_fuel h g = absurd (g refl)

  -- `FilterNode` on a node that is not nil ends, and the result is that of the longest prefix of the
  -- path that names a node or is refused with an error: every longer prefix names nothing. The flag
  -- is true exactly if that prefix is the whole path.
  pub filter_node-EndsAt :
      (steps : List Step)
      → (k : ℕ) × EndsAt steps k
        × (filter_node ast steps (some n) ≡ outcome (k == 0) (filter ast (shorten k steps) n))
        × (filter_node ast steps (some n) ≢ out_of_fuel)
  unfolding filter_node
  filter_node-EndsAt steps =
      let (k, e, r) = filter_loop-EndsAt (length steps + 1) true steps (omega arith) in
      (
        k,
        e,
        r,
        λ stuck.
            outcome-ne-out_of_fuel (k == 0) (filter ast (shorten k steps) n) e.ends
              (filter_ends ast (shorten k steps) n) (sym r ∙ stuck),
      )
