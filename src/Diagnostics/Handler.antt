-- ===== src/Diagnostics/Handler.antt =====
-- internal/diagnostics/handler.go.
pub mod Sorting
pub mod Publishing
use nobl9_language_server.Base.{
  ℕ, Bool, true, false, ◌&&◌, ◌||◌, not, Option, none, some, List, [], ◌∷◌, ltb, leb, ◌==◌,
  if◌then◌else◌, Exec, ok, err, panic, out_of_fuel,
}
use nobl9_language_server.Text.{Bytes}
use nobl9_language_server.Messages.{Diagnostic, Position}
use nobl9_language_server.Files.{File, ℤ, pos, negsuc}
use nobl9_language_server.Diagnostics.{Diagnostics}

-- The comparison of `SortFunc` is not positive.
unfoldable pub is_before : Position → Position → Bool
is_before p q = ltb p.line q.line || (p.line == q.line && leb p.character q.character)

unfoldable pub insert : Diagnostic → List Diagnostic → List Diagnostic
unfolding is_before
insert d [] = d ∷ []
insert d (e ∷ es) =
    let rest = insert d es in if is_before d.range.start e.range.start then d ∷ e ∷ es else e ∷ rest

-- `slices.SortFunc`, of which the order among equal positions is not told.
unfoldable pub sort : List Diagnostic → List Diagnostic
unfolding insert
sort [] = []
sort (d ∷ ds) = insert d (sort ds)

unfoldable pub same_version : ℤ → ℤ → Bool
same_version (pos a) (pos b) = a == b
same_version (negsuc a) (negsuc b) = a == b
same_version _ _ = false

pub record Published : Type 0 where
  pub uri : Bytes
  pub version : ℤ
  pub diagnostics : List Diagnostic

-- What is published at the end, where `now` is the answer of the file system by then. A file that has
-- gone is no reason to stay silent; one that has changed is.
unfoldable pub publish :
    {N : Type 0} → Bytes → ℤ → List Diagnostic → Exec (File N) → Option Published
unfolding same_version sort
publish uri version ds (ok f) =
    if same_version f.version version
    then some (record { uri = uri; version = version; diagnostics = sort ds })
    else none
publish uri version ds _ = some (record { uri = uri; version = version; diagnostics = sort ds })

unfoldable pub published :
    {N : Type 0} → Bytes → ℤ → Diagnostics → Exec (File N) → Exec (Option Published)
unfolding publish
published uri version (ok ds) now = ok (publish uri version ds now)
published uri version (err e) now = err e
published uri version panic now = panic
published uri version out_of_fuel now = out_of_fuel

-- `Handle`, on the answers of the file system before and after the diagnosis.
unfoldable pub handle :
    {N : Type 0}
    → (File N → Diagnostics)
    → Bytes
    → ℤ
    → Exec (File N)
    → Exec (File N)
    → Exec (Option Published)
unfolding published
handle diagnose uri version (ok f) now =
    if f.skip then ok none else published uri version (diagnose f) now
handle diagnose uri version (err e) now = err e
handle diagnose uri version panic now = panic
handle diagnose uri version out_of_fuel now = out_of_fuel
