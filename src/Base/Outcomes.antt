-- ===== src/Base/Outcomes.antt =====
-- How a call ends: it returns a value or an `error`, it panics, or it never ends.
use Prim.Native.Nat.{ℕ}
use mathlib.Core.List.{List}
use mathlib.Core.Path.{◌≡◌, refl}

-- The errors that the source makes, without the wrapping texts. `external` is an error that a
-- package outside the repository made, under a number of its own.
pub data Error : Type 0 where
  invalid_path invalid_number invalid_query not_found_node : Error
  missing_bracket invalid_uri unsupported_scheme not_an_object invalid_version invalid_kind : Error
  file_not_found file_exists file_closed : List ℕ → Error
  method_not_found missing_params invalid_language invalid_arguments unknown_command : Error
  external : ℕ → Error

-- `out_of_fuel` stands for a call that has not ended within the rounds given.
pub data Exec {ℓ} (A : Type ℓ) : Type ℓ where
  ok : A → Exec A
  err : Error → Exec A
  panic out_of_fuel : Exec A

infixl 5 ◌>>=◌
abbrev pub ◌>>=◌ {ℓ κ} : {A : Type ℓ} {B : Type κ} → Exec A → (A → Exec B) → Exec B
ok a >>= f = f a
err e >>= f = err e
panic >>= f = panic
out_of_fuel >>= f = out_of_fuel

-- A call that returns an `error` alone.
abbrev pub Done : Type 0
Done = Exec {0} (Unit {0})

-- The call returns a value or an error.
abbrev pub Returns {ℓ} : {A : Type ℓ} → Exec A → Type 0
Returns (ok a) = Unit
Returns (err e) = Unit
Returns _ = ⊥

-- A call followed by what is the same wherever the call returns.
pub bind_same {ℓ κ} :
    {A : Type ℓ} {B : Type κ} (m : Exec A) (f g : A → Exec B)
    → ((x : A) → f x ≡ g x)
    → (m >>= f) ≡ (m >>= g)
bind_same (ok x) f g h = h x
bind_same (err e) f g h = refl
bind_same panic f g h = refl
bind_same out_of_fuel f g h = refl
