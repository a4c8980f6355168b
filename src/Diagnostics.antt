-- ===== src/Diagnostics.antt =====
-- internal/diagnostics/provider.go: the look-ups, and how the checks of an object are put together.
pub mod Existence
pub mod Handler
pub mod References
pub mod Refers
pub mod Soundness
pub mod Ranges
pub mod Provider
mod Tests
use nobl9_language_server.Base.{
  ℕ, suc, Bool, List, [], ◌∷◌, ◌++◌, Exec, ok, err, panic, out_of_fuel, ◌>>=◌,
}
use nobl9_language_server.Text.{Bytes}
use nobl9_language_server.Manifest.{Kind, Object}
use nobl9_language_server.Messages.{Diagnostic}

-- What a look-up gives: the value, nil, or an error.
pub data Fetched {ℓ} (A : Type ℓ) : Type ℓ where
  found : A → Fetched A
  missing failed : Fetched A

pub record Roles : Type 0 where
  pub organization_roles : List Bytes
  pub project_roles : List Bytes

-- `objectsProvider`.
pub record ObjectsProvider : Type 0 where
  pub get_object : Kind → Bytes → Bytes → Fetched Object
  pub get_user : Bytes → Fetched Bytes
  pub get_roles : Fetched Roles

abbrev pub Diagnostics : Type 0
Diagnostics = Exec (List Diagnostic)

-- `diagnostics = append(diagnostics, …)`.
infixr 6 ◌also◌
unfoldable pub ◌also◌ : Diagnostics → Diagnostics → Diagnostics
a also b = a >>= λ ds. b >>= λ es. ok (ds ++ es)

-- `if len(diags) > 0`: what follows is left out where there are diagnostics.
unfoldable pub unless_any : List Diagnostic → Diagnostics → Diagnostics
unless_any [] b = b
unless_any (d ∷ ds) b = ok (d ∷ ds)

infixr 6 ◌or◌
unfoldable pub ◌or◌ : Diagnostics → Diagnostics → Diagnostics
unfolding unless_any
a or b = a >>= λ ds. unless_any ds b

-- A loop over a slice that appends the diagnostics of each element.
unfoldable pub each {ℓ} : {A : Type ℓ} → (ℕ → A → Diagnostics) → ℕ → List A → Diagnostics
unfolding ◌also◌
each f i [] = ok []
each f i (x ∷ xs) = f i x also each f (suc i) xs
