-- ===== src/YamlAst/Find/Tests.antt =====
-- Looking for lines in a manifest with a list:
--   1  kind: Service
--   2  metadata:
--   3    name: web
--   4    labels:
--   5    - blue
use nobl9_language_server.Base.{ℕ, ◌≡◌, refl, Option, none, some, [], ◌∷◌, ok, inl, inr, arith}
use nobl9_language_server.YamlAst.Find.{
  View, Ast, mapping, mapping_value, sequence, other, weigh, closest_from, find_closest_node,
  walk_view, walk, find,
}
use nobl9_language_server.YamlAst.Find.Entries.{entries, IsBlock, IsClosest}
use nobl9_language_server.YamlAst.Find.Closest.{find-IsClosest}

data Part : Type 0 where
  tree : Part
  kind_entry : Part
  metadata_entry : Part
  metadata : Part
  name_entry : Part
  labels_entry : Part
  labels : Part
  key : Part
  text : Part
  blue : Part

abbrev view_of : Part → View Part
view_of tree = mapping (kind_entry ∷ metadata_entry ∷ [])
view_of kind_entry = mapping_value 1 key (some text)
view_of metadata_entry = mapping_value 2 key (some metadata)
view_of metadata = mapping (name_entry ∷ labels_entry ∷ [])
view_of name_entry = mapping_value 3 key (some text)
view_of labels_entry = mapping_value 4 key (some labels)
view_of labels = sequence (blue ∷ [])
view_of n = other

abbrev line_of : Part → Option ℕ
line_of tree = some 1
line_of kind_entry = some 1
line_of metadata_entry = some 2
line_of metadata = some 3
line_of name_entry = some 3
line_of labels_entry = some 4
line_of labels = some 5
line_of blue = some 5
line_of n = none

abbrev manifest : Ast
manifest = record { Node = Part; view = view_of; line_of = line_of }

-- A line of the list is that of the labels, and a line in front of all others that of the tree.
find_labels : find manifest 7 5 (some tree) ≡ ok (some labels_entry)
unfolding find walk walk_view find_closest_node closest_from weigh
find_labels = refl

find_tree : find manifest 7 0 (some tree) ≡ ok (some tree)
unfolding find walk walk_view find_closest_node closest_from weigh
find_tree = refl

labels-IsBlock : IsBlock manifest 3 labels_entry
labels-IsBlock = (tt, refl, ((tt, tt), (omega arith, tt, tt, tt, tt), inr refl), tt)

metadata-IsBlock : IsBlock manifest 5 metadata_entry
metadata-IsBlock = (
  tt,
  refl,
  (
    ((tt, refl, tt, tt), (labels-IsBlock, tt)),
    (
      omega arith,
      (omega arith, tt),
      (omega arith, tt),
      ((omega arith, tt), tt),
      (omega arith, tt, (omega arith, tt), (tt, tt), tt),
    ),
    ((name_entry, inl refl), ((labels_entry, inl refl), tt)),
  ),
  (omega arith, (omega arith, tt)),
)

manifest-IsBlock : IsBlock manifest 6 tree
manifest-IsBlock = (
  ((tt, refl, tt, tt), (metadata-IsBlock, tt)),
  (
    omega arith,
    (omega arith, tt),
    (omega arith, tt),
    ((omega arith, (omega arith, (omega arith, tt))), tt),
    (omega arith, tt, (omega arith, (omega arith, (omega arith, tt))), (tt, (tt, (tt, tt))), tt),
  ),
  ((kind_entry, inl refl), ((metadata_entry, inl refl), tt)),
)

find-IsClosest_example :
    (r : Option Part) × (find manifest 6 5 (some tree) ≡ ok r)
    × IsClosest manifest 5 (entries manifest 6 tree) (some tree) r
find-IsClosest_example = find-IsClosest manifest 6 5 tree manifest-IsBlock
