-- ===== src/Completion/Kinds.antt =====
-- The kinds of the items that each provider makes.
use nobl9_language_server.Base.{
  ℕ, ◌≡◌, refl, not, Option, List, [], ◌∷◌, ◌++◌, map, All, Exec, ok, err, panic, out_of_fuel,
  ◌>>=◌, if_intro,
}
use nobl9_language_server.Text.{Bytes, equal}
use nobl9_language_server.Manifest.{Kind}
use nobl9_language_server.YamlAstSimple.Lines.{Line}
use nobl9_language_server.Files.Simple.{SimpleObjectNode}
use nobl9_language_server.Completion.{
  Item, ItemKind, property_completion, value_completion, snippet_completion, GetProperty,
}
use nobl9_language_server.Completion.Keys.{
  is_excluded, last_part, property_item, proposed_paths, complete_paths, complete_keys,
  completed_path,
}
use nobl9_language_server.Completion.Values.{Names, value_item, proposed_values, complete_values}
use nobl9_language_server.Completion.References.{Items, ◌or_nil◌}
use nobl9_language_server.Completion.Snippets.{
  Snippet, placed, snippet_item, setup_snippet_items, complete_snippets, find_line_back,
  filter_comment_and_empty_lines, before,
}

-- The items of a call that returns.
abbrev pub AllOf {ℓ} : (Item → Type ℓ) → Items → Type ℓ
AllOf P (ok items) = All P items
AllOf P _ = Unit

pub AllOf-bind {ℓ κ} :
    {A : Type κ} (P : Item → Type ℓ) (m : Exec A) (f : A → Items)
    → ((a : A) → AllOf P (f a))
    → AllOf P (m >>= f)
AllOf-bind P (ok a) f h = h a
AllOf-bind P (err e) f h = tt
AllOf-bind P panic f h = tt
AllOf-bind P out_of_fuel f h = tt

pub AllOf-or_nil {ℓ κ} :
    {A : Type κ} (P : Item → Type ℓ) (m : Exec A) (f : A → Items)
    → ((a : A) → AllOf P (f a))
    → AllOf P (m or_nil f)
AllOf-or_nil P (ok a) f h = h a
AllOf-or_nil P (err e) f h = tt
AllOf-or_nil P panic f h = tt
AllOf-or_nil P out_of_fuel f h = tt

pub All-map {ℓ κ} :
    {A : Type κ} (P : Item → Type ℓ) (f : A → Item) (xs : List A)
    → ((a : A) → P (f a))
    → All P (map f xs)
All-map P f [] h = tt
All-map P f (x ∷ xs) h = (h x, All-map P f xs h)

abbrev pub HasKind : ItemKind → Item → Type 0
HasKind k item = item.kind ≡ k

complete_paths-kind :
    (docs : GetProperty) (kind : Kind) (l : Line) (path : Bytes) (paths : List Bytes)
    → AllOf (HasKind property_completion) (complete_paths docs kind l path paths)
unfolding complete_paths property_item
complete_paths-kind docs kind l path [] = tt
complete_paths-kind docs kind l path (p ∷ ps) =
    let later = complete_paths-kind docs kind l path ps in
    if_intro {A = Items} (λ r. AllOf (HasKind property_completion) r) (is_excluded p) (λ _. later)
      (λ _.
        AllOf-bind (HasKind property_completion) (docs kind (path ++ b'.' ∷ last_part p)) _ λ prop.
          put_first (property_item l path (last_part p) prop) (complete_paths docs kind l path ps)
            refl later)
  where
    put_first :
        (item : Item) (r : Items)
        → HasKind property_completion item
        → AllOf (HasKind property_completion) r
        → AllOf (HasKind property_completion) (r >>= λ items. ok (item ∷ items))
    put_first item (ok items) h hs = (h, hs)
    put_first item (err e) h hs = tt
    put_first item panic h hs = tt
    put_first item out_of_fuel h hs = tt

pub complete_keys-kind :
    (docs : GetProperty) (kind : Kind) (l : Line)
    → AllOf (HasKind property_completion) (complete_keys docs kind l)
unfolding complete_keys
complete_keys-kind docs kind l =
    AllOf-bind (HasKind property_completion) (proposed_paths docs kind (completed_path l)) _
      λ paths. complete_paths-kind docs kind l (completed_path l) paths

pub complete_values-kind :
    (names : Names) (docs : GetProperty) (node : SimpleObjectNode) (l : Line)
    → AllOf (HasKind value_completion) (complete_values names docs node l)
unfolding complete_values
complete_values-kind names docs node l =
    AllOf-bind (HasKind value_completion) (proposed_values names docs node l.generalized_path) _
      λ values. All-map (HasKind value_completion) value_item values (λ v. refl)

pub complete_snippets-kind :
    (snippets : List Snippet) (n : ℕ) (file : List SimpleObjectNode) (l : Line)
    → All (HasKind snippet_completion) (complete_snippets snippets n file l)
unfolding complete_snippets setup_snippet_items
complete_snippets-kind snippets n file l =
    if_intro {A = List Item} (λ x. All (HasKind snippet_completion) x)
      (not (equal l.generalized_path (b'$' ∷ []))) (λ _. tt) λ _. twice snippets
  where
    prev : Option Line
    prev = find_line_back filter_comment_and_empty_lines file (before n)

    twice :
        (ss : List Snippet)
        → All (HasKind snippet_completion) (map (placed snippets l prev) (map snippet_item ss))
    twice [] = tt
    twice (s ∷ ss) = (refl, twice ss)
