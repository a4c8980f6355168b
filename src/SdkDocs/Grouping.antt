-- ===== src/SdkDocs/Grouping.antt =====
-- What `New` groups under a kind.
use nobl9_language_server.Base.{
  Bool, map, ◌≡◌, refl, sym, ap, ◌∙◌, true, false, Option, none, some, List, [], ◌∷◌, ◌++◌,
  append_assoc, append-nil, if◌then◌else◌, Bool-cases, inl, inr, arith, if_intro,
}
use nobl9_language_server.Text.{Bytes}
use nobl9_language_server.Manifest.{Kind, kind_number, same_kind}
use nobl9_language_server.SdkDocs.{
  PropertyDoc, ObjectDoc, Docs, slice_of, put, append_properties, select_deprecated_paths,
  add_object, add_objects, new, get_deprecated_paths,
}
use mathlib.Core.Path.{subst}

-- The properties of all objects of a kind, in their order.
abbrev pub properties_of : Kind → List ObjectDoc → List PropertyDoc
properties_of kind [] = []
properties_of kind (o ∷ os) =
    let rest = properties_of kind os in if same_kind o.kind kind then o.properties ++ rest else rest

same_kind_refl : (k : Kind) → same_kind k k ≡ true
unfolding same_kind kind_number
same_kind_refl k = ground arith

module _ {ℓ} {A : Type ℓ} (kind : Kind) (a : A) (m : Kind → Option A) where
  put_self : put kind a m kind ≡ some a
  unfolding put
  put_self = rw (same_kind_refl kind)

  put_other : (k : Kind) → same_kind kind k ≡ false → put kind a m k ≡ m k
  unfolding put
  put_other k e = rw e

append_properties_self :
    (kind : Kind) (ps : List PropertyDoc) (m : Kind → Option (List PropertyDoc))
    → slice_of (append_properties kind ps m kind) ≡ slice_of (m kind) ++ ps
unfolding append_properties
append_properties_self kind [] m = sym (append-nil (slice_of (m kind)))
append_properties_self kind (p ∷ ps) m =
    let qs : List PropertyDoc = slice_of (m kind) ++ p ∷ [] in
    append_properties_self kind ps (put kind qs m)
    ∙ ap (λ (s : Option (List PropertyDoc)). slice_of s ++ ps) (put_self kind qs m)
    ∙ append_assoc (slice_of (m kind)) (p ∷ []) ps

append_properties_other :
    (kind k : Kind) (ps : List PropertyDoc) (m : Kind → Option (List PropertyDoc))
    → same_kind kind k ≡ false
    → append_properties kind ps m k ≡ m k
unfolding append_properties
append_properties_other kind k [] m e = refl
append_properties_other kind k (p ∷ ps) m e =
    let qs : List PropertyDoc = slice_of (m kind) ++ p ∷ [] in
    append_properties_other kind k ps (put kind qs m) e ∙ put_other kind qs m k e

-- A kind of `Docs` has the properties that were read so far, and its deprecated paths are those.
abbrev pub Holds : Kind → Docs → List PropertyDoc → Type 0
Holds k docs ps =
    (slice_of (docs.m k) ≡ ps) × (slice_of (docs.deprecated k) ≡ select_deprecated_paths ps)

same_kind→same : (k l : Kind) → same_kind k l ≡ true → k ≡ l
unfolding same_kind kind_number
same_kind→same k l h = ground arith

append_own :
    (o : ObjectDoc) (docs : Docs) (ps : List PropertyDoc)
    → slice_of (docs.m o.kind) ≡ ps
    → Holds o.kind (add_object o docs) (ps ++ o.properties)
unfolding add_object
append_own o docs ps own =
    let grown : slice_of (append_properties o.kind o.properties docs.m o.kind)
        ≡ ps ++ o.properties =
      append_properties_self o.kind o.properties docs.m ∙ ap (λ qs. qs ++ o.properties) own in
    let paths : List Bytes =
      select_deprecated_paths (slice_of (append_properties o.kind o.properties docs.m o.kind)) in
    (
      grown,
      ap (λ (s : Option (List Bytes)). slice_of s) (put_self o.kind paths docs.deprecated)
          ∙ ap select_deprecated_paths grown,
    )

append_foreign :
    (k : Kind) (o : ObjectDoc) (docs : Docs) (ps : List PropertyDoc)
    → same_kind o.kind k ≡ false
    → Holds k docs ps
    → Holds k (add_object o docs) ps
unfolding add_object
append_foreign k o docs ps e (own, old) =
    let paths : List Bytes =
      select_deprecated_paths (slice_of (append_properties o.kind o.properties docs.m o.kind)) in
    (
      ap (λ (s : Option (List PropertyDoc)). slice_of s)
            (append_properties_other o.kind k o.properties docs.m e)
          ∙ own,
      ap (λ (s : Option (List Bytes)). slice_of s) (put_other o.kind paths docs.deprecated k e)
          ∙ old,
    )

add_object-Holds :
    (k : Kind) (o : ObjectDoc) (docs : Docs) (ps : List PropertyDoc)
    → Holds k docs ps
    → Holds k (add_object o docs) (if same_kind o.kind k then ps ++ o.properties else ps)
add_object-Holds k o docs ps h =
    if_intro {A = List PropertyDoc} (λ qs. Holds k (add_object o docs) qs) (same_kind o.kind k)
      (λ e.
        let same : o.kind ≡ k = same_kind→same o.kind k e in
        subst (λ j. Holds j (add_object o docs) (ps ++ o.properties)) same
          (append_own o docs ps (subst (λ j. slice_of (docs.m j) ≡ ps) (sym same) h.0)))
      (λ e. append_foreign k o docs ps e h)

grown_by :
    (k : Kind) (o : ObjectDoc) (os : List ObjectDoc) (ps : List PropertyDoc)
    → (if same_kind o.kind k then ps ++ o.properties else ps) ++ properties_of k os
      ≡ ps ++ properties_of k (o ∷ os)
grown_by k o os ps = elim (Bool-cases (same_kind o.kind k)) [
  | inl e ↦ rw e (append_assoc ps o.properties (properties_of k os))
  | inr e ↦ rw e
]

add_objects-Holds :
    (k : Kind) (os : List ObjectDoc) (docs : Docs) (ps : List PropertyDoc)
    → Holds k docs ps
    → Holds k (add_objects os docs) (ps ++ properties_of k os)
unfolding add_objects
add_objects-Holds k [] docs ps h = subst (λ qs. Holds k docs qs) (sym (append-nil ps)) h
add_objects-Holds k (o ∷ os) docs ps h =
    subst (λ qs. Holds k (add_objects os (add_object o docs)) qs) (grown_by k o os ps)
      (add_objects-Holds k os (add_object o docs)
        (if same_kind o.kind k then ps ++ o.properties else ps) (add_object-Holds k o docs ps h))

-- `New` groups under each kind the properties of all objects of that kind, in their order, also
-- where several objects have one kind.
pub new-Holds : (k : Kind) (os : List ObjectDoc) → Holds k (new os) (properties_of k os)
unfolding new select_deprecated_paths
new-Holds k os =
    add_objects-Holds k os (record { m = λ j. none; deprecated = λ j. none }) [] (refl, refl)

-- Those of the properties that are deprecated.
abbrev pub when_deprecated : Bool → PropertyDoc → List PropertyDoc → List PropertyDoc
when_deprecated true p ps = p ∷ ps
when_deprecated false p ps = ps

abbrev pub the_deprecated : List PropertyDoc → List PropertyDoc
the_deprecated [] = []
the_deprecated (p ∷ ps) = when_deprecated p.is_deprecated p (the_deprecated ps)

select_deprecated_paths-map :
    (ps : List PropertyDoc)
    → select_deprecated_paths ps ≡ map (λ (p : PropertyDoc). p.path) (the_deprecated ps)
unfolding select_deprecated_paths
select_deprecated_paths-map [] = refl
select_deprecated_paths-map (p ∷ ps) =
    one_more p.is_deprecated p (select_deprecated_paths ps) (the_deprecated ps)
      (select_deprecated_paths-map ps)
  where
    one_more :
        (b : Bool) (q : PropertyDoc) (paths : List Bytes) (qs : List PropertyDoc)
        → paths ≡ map (λ (r : PropertyDoc). r.path) qs
        → (if b then q.path ∷ paths else paths)
          ≡ map (λ (r : PropertyDoc). r.path) (when_deprecated b q qs)
    one_more true q paths qs e = ap (λ ls. q.path ∷ ls) e
    one_more false q paths qs e = e

-- `GetDeprecatedPaths` of a kind gives the paths of the deprecated ones among the properties of all
-- objects of that kind, in their order.
pub get_deprecated_paths-new :
    (k : Kind) (os : List ObjectDoc)
    → get_deprecated_paths (new os) k
      ≡ map (λ (p : PropertyDoc). p.path) (the_deprecated (properties_of k os))
unfolding get_deprecated_paths
get_deprecated_paths-new k os =
    (new-Holds k os).1 ∙ select_deprecated_paths-map (properties_of k os)
