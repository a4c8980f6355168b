-- ===== src/SdkDocs.antt =====
-- internal/sdkdocs: the documentation of the properties of each kind. Reading docs.json is a parameter.
pub mod Grouping
pub mod Matching
mod Tests
use nobl9_language_server.Base.{
  Bool, true, false, Option, none, some, List, [], ◌∷◌, ◌++◌, if◌then◌else◌, Exec, ok, panic,
}
use nobl9_language_server.Text.{Bytes}
use nobl9_language_server.Manifest.{Kind, same_kind}
use nobl9_language_server.YamlPath.Match.{match}

pub record RulePlan : Type 0 where
  pub description : Bytes
  pub details : Bytes
  pub conditions : List Bytes

-- The fields that the server reads.
pub record PropertyDoc : Type 0 where
  pub path : Bytes
  pub type_name : Bytes
  pub doc : Bytes
  pub is_deprecated : Bool
  pub examples : List Bytes
  pub values : List Bytes
  pub rules : List RulePlan
  pub children_paths : List Bytes

pub record ObjectDoc : Type 0 where
  pub kind : Kind
  pub properties : List PropertyDoc

-- The two maps.
pub record Docs : Type 0 where
  pub m : Kind → Option (List PropertyDoc)
  pub deprecated : Kind → Option (List Bytes)

-- The slice that a map has under a key, nil where it has none.
abbrev pub slice_of {ℓ} : {A : Type ℓ} → Option (List A) → List A
slice_of none = []
slice_of (some xs) = xs

-- `m[kind] = value`.
unfoldable pub put {ℓ} : {A : Type ℓ} → Kind → A → (Kind → Option A) → Kind → Option A
unfolding same_kind
put kind value m k = if same_kind kind k then some value else m k

-- The inner loop of `New`.
unfoldable pub append_properties :
    Kind → List PropertyDoc → (Kind → Option (List PropertyDoc)) → Kind → Option (List PropertyDoc)
unfolding put
append_properties kind [] m = m
append_properties kind (p ∷ ps) m =
    append_properties kind ps (put kind (slice_of (m kind) ++ p ∷ []) m)

unfoldable pub select_deprecated_paths : List PropertyDoc → List Bytes
select_deprecated_paths [] = []
select_deprecated_paths (p ∷ ps) =
    let rest = select_deprecated_paths ps in if p.is_deprecated then p.path ∷ rest else rest

-- One round of the outer loop of `New`.
unfoldable pub add_object : ObjectDoc → Docs → Docs
unfolding append_properties select_deprecated_paths put
add_object o docs =
    let m = append_properties o.kind o.properties docs.m in
    record {
      m = m;
      deprecated = put o.kind (select_deprecated_paths (slice_of (m o.kind))) docs.deprecated;
    }

unfoldable pub add_objects : List ObjectDoc → Docs → Docs
unfolding add_object
add_objects [] docs = docs
add_objects (o ∷ os) docs = add_objects os (add_object o docs)

-- `New`, on the decoded docs.json.
unfoldable pub new : List ObjectDoc → Docs
unfolding add_objects
new objects = add_objects objects (record { m = λ k. none; deprecated = λ k. none })

abbrev pub Found : Type 0
Found = Exec (Option PropertyDoc)

-- One round of the loop of `GetProperty`, on what `Match` says and the rounds that are left.
abbrev pub or_next : Option Bool → PropertyDoc → Found → Found
or_next none p rest = panic
or_next (some true) p rest = ok (some p)
or_next (some false) p rest = rest

unfoldable pub find_matching : Bytes → List PropertyDoc → Found
unfolding match
find_matching path [] = ok none
find_matching path (p ∷ ps) = let rest = find_matching path ps in or_next (match p.path path) p rest

unfoldable pub get_property : Docs → Kind → Bytes → Found
unfolding find_matching
get_property docs kind path = elim (docs.m kind) [
  | none ↦ ok none
  | some ps ↦ find_matching path ps
]

unfoldable pub get_deprecated_paths : Docs → Kind → List Bytes
get_deprecated_paths docs kind = slice_of (docs.deprecated kind)
