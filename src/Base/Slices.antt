-- ===== src/Base/Slices.antt =====
-- Parts of lists: a part of a part, and what an index names in a part.
use Prim.Native.Nat.{ℕ, zero, suc, ◌+◌, ◌<◌}
use mathlib.Core.Path.{◌≡◌, refl, sym, ap, ◌∙◌}
use mathlib.Core.List.{List, [], ◌∷◌, ◌++◌}
use native.Mathlib.Omega.{arith}
use nobl9_language_server.Base.Lists.{length, get_elem?, take, drop}

suc_add : (a b : ℕ) → suc (a + b) ≡ suc a + b
suc_add a b = omega arith

module _ {ℓ} {A : Type ℓ} where
  pub drop-nil : (i : ℕ) → ◌≡◌ {A = List A} (drop i []) []
  drop-nil zero = refl
  drop-nil (suc i) = refl

  pub drop-drop : (i k : ℕ) (s : List A) → drop k (drop i s) ≡ drop (i + k) s
  drop-drop zero k s = ap (λ j. drop j s) (omega arith)
  drop-drop (suc i) k [] = drop-nil k ∙ sym (drop-nil (suc i + k))
  drop-drop (suc i) k (x ∷ s) = drop-drop i k s ∙ ap (λ j. drop j (x ∷ s)) (suc_add i k)

  pub get_elem?-drop : (s : List A) (i k : ℕ) → get_elem? (drop i s) k ≡ get_elem? s (i + k)
  get_elem?-drop s zero k = ap (get_elem? s) (omega arith)
  get_elem?-drop [] (suc i) k = refl
  get_elem?-drop (x ∷ s) (suc i) k = get_elem?-drop s i k ∙ ap (get_elem? (x ∷ s)) (suc_add i k)

  pub get_elem?-append_right :
      (xs ys : List A) (k : ℕ) → get_elem? (xs ++ ys) (length xs + k) ≡ get_elem? ys k
  get_elem?-append_right [] ys k = ap (get_elem? ys) (omega arith)
  get_elem?-append_right (x ∷ xs) ys k =
      ap (get_elem? (x ∷ (xs ++ ys))) (sym (suc_add (length xs) k)) ∙ get_elem?-append_right xs ys k

  pub get_elem?-append_left :
      (xs ys : List A) (k : ℕ) → k < length xs → get_elem? (xs ++ ys) k ≡ get_elem? xs k
  get_elem?-append_left [] ys k h = elim h [ ]
  get_elem?-append_left (x ∷ xs) ys zero h = refl
  get_elem?-append_left (x ∷ xs) ys (suc k) h = get_elem?-append_left xs ys k (omega arith)

  -- A part of what stands behind `i` is a part of the whole.
  pub drop-take-drop :
      (s : List A) (i a e : ℕ) → drop (i + a) (take (i + e) s) ≡ drop a (take e (drop i s))
  drop-take-drop s zero a e =
      ap (λ j. drop j (take (0 + e) s)) (omega arith) ∙ ap (λ j. drop a (take j s)) (omega arith)
  drop-take-drop [] (suc i) a e =
      ap (drop (suc i + a)) (take-nil (suc i + e))
      ∙ drop-nil (suc i + a)
      ∙ sym (ap (drop a) (take-nil e) ∙ drop-nil a)
    where
      take-nil : (j : ℕ) → ◌≡◌ {A = List A} (take j []) []
      take-nil zero = refl
      take-nil (suc j) = refl
  drop-take-drop (x ∷ s) (suc i) a e =
      ap (λ j. drop j (take (suc i + e) (x ∷ s))) (sym (suc_add i a))
      ∙ ap (λ j. drop (suc (i + a)) (take j (x ∷ s))) (sym (suc_add i e))
      ∙ drop-take-drop s i a e
