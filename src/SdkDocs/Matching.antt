-- ===== src/SdkDocs/Matching.antt =====
-- What `GetProperty` finds.
use nobl9_language_server.Base.{
  ◌≡◌, refl, ap, Bool, true, false, Option, none, some, List, [], ◌∷◌, ◌++◌, All, ok, err, panic,
  out_of_fuel, Option-cases, inl, inr,
}
use mathlib.Core.Path.{subst}
use nobl9_language_server.Text.{Bytes}
use nobl9_language_server.Manifest.{Kind}
use nobl9_language_server.YamlPath.Match.{match}
use nobl9_language_server.SdkDocs.{
  PropertyDoc, ObjectDoc, Docs, Found, slice_of, or_next, find_matching, get_property, new,
}
use nobl9_language_server.SdkDocs.Grouping.{properties_of, new-Holds}

-- The properties are divided at the first one at which `Match` does not say no, where it says `said`.
abbrev pub StopsAt : Bytes → List PropertyDoc → PropertyDoc → Option Bool → Type 0
StopsAt path ps p said =
    (before : List PropertyDoc) × (after : List PropertyDoc) × (ps ≡ before ++ p ∷ after)
    × All (λ (q : PropertyDoc). match q.path path ≡ some false) before
    × (match p.path path ≡ said)

-- What a search among the properties may give.
abbrev pub IsFirst : Bytes → List PropertyDoc → Found → Type 0
IsFirst path ps (ok (some p)) = StopsAt path ps p (some true)
IsFirst path ps (ok none) = All (λ (q : PropertyDoc). match q.path path ≡ some false) ps
IsFirst path ps panic = (p : PropertyDoc) × StopsAt path ps p none
IsFirst path ps _ = ⊥

IsFirst-next :
    (path : Bytes) (p : PropertyDoc) (ps : List PropertyDoc) (r : Found)
    → match p.path path ≡ some false
    → IsFirst path ps r
    → IsFirst path (p ∷ ps) r
IsFirst-next path p ps (ok (some q)) no_match (before, after, e, none_before, said) =
    (p ∷ before, after, ap (λ qs. p ∷ qs) e, (no_match, none_before), said)
IsFirst-next path p ps (ok none) no_match h = (no_match, h)
IsFirst-next path p ps panic no_match (q, (before, after, e, none_before, said)) =
    (q, (p ∷ before, after, ap (λ qs. p ∷ qs) e, (no_match, none_before), said))
IsFirst-next path p ps (err e) no_match h = h
IsFirst-next path p ps out_of_fuel no_match h = h

IsFirst-or_next :
    (path : Bytes) (p : PropertyDoc) (ps : List PropertyDoc) (said : Option Bool) (r : Found)
    → match p.path path ≡ said
    → IsFirst path ps r
    → IsFirst path (p ∷ ps) (or_next said p r)
IsFirst-or_next path p ps none r e h = (p, ([], ps, refl, tt, e))
IsFirst-or_next path p ps (some true) r e h = ([], ps, refl, tt, e)
IsFirst-or_next path p ps (some false) r e h = IsFirst-next path p ps r e h

find_matching-IsFirst :
    (path : Bytes) (ps : List PropertyDoc) → IsFirst path ps (find_matching path ps)
unfolding find_matching
find_matching-IsFirst path [] = tt
find_matching-IsFirst path (p ∷ ps) =
    IsFirst-or_next path p ps (match p.path path) (find_matching path ps) refl
      (find_matching-IsFirst path ps)

get_property-slice :
    (docs : Docs) (kind : Kind) (path : Bytes)
    → get_property docs kind path ≡ find_matching path (slice_of (docs.m kind))
unfolding get_property find_matching
get_property-slice docs kind path = elim (Option-cases (docs.m kind)) [
  | inl e ↦ rw (e, get_property, find_matching) refl
  | inr (ps, e) ↦ rw (e, get_property) refl
]

-- `GetProperty` of what `New` made gives the first property, among those of all objects of the kind,
-- whose path matches, and nil where none does; it panics exactly where `Match` panics at a property
-- in front of which none matches.
pub get_property-IsFirst :
    (os : List ObjectDoc) (kind : Kind) (path : Bytes)
    → IsFirst path (properties_of kind os) (get_property (new os) kind path)
get_property-IsFirst os kind path = rw (get_property-slice (new os) kind path) (
    subst (λ ps. IsFirst path ps (find_matching path (slice_of ((new os).m kind))))
      (new-Holds kind os).0 (find_matching-IsFirst path (slice_of ((new os).m kind))))
