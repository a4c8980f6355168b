-- ===== src/YamlPath/Filter/Ends.antt =====
-- The `filter` methods end, and do not panic on a node that is not nil.
use nobl9_language_server.Base.{
  ℕ, ◌≢◌, Option, none, some, List, [], ◌∷◌, if_intro, Exec, ok, err, Returns, panic, out_of_fuel,
  ◌>>=◌, get_elem?, ◌==◌, Option-cases, inl, inr,
}
use nobl9_language_server.Text.{Bytes, equal}
use nobl9_language_server.YamlPath.{Step, selector, at_index}
use nobl9_language_server.YamlPath.Unquote.{unquote_double, of_unquoted}
use nobl9_language_server.YamlPath.Filter.{
  Ast, View, Entry, mapping, mapping_value, sequence, other, plain_key, bare, find_entry,
  select_view, index_items, index_view, take_step, filter,
}

Returns-bind {ℓ κ} :
    {A : Type ℓ} {B : Type κ} (m : Exec A) (f : A → Exec B)
    → Returns m
    → ((a : A) → Returns (f a))
    → Returns (m >>= f)
Returns-bind (ok a) f h k = k a
Returns-bind (err e) f h k = tt
Returns-bind panic f h k = h
Returns-bind out_of_fuel f h k = h

of_unquoted-Returns : (o : Option Bytes) → Returns (of_unquoted o)
of_unquoted-Returns none = tt
of_unquoted-Returns (some key) = tt

plain_key-Returns : (key : Bytes) → Returns (plain_key key)
unfolding plain_key
plain_key-Returns [] = tt
plain_key-Returns (c ∷ cs) =
    if_intro {A = Exec Bytes} (λ r. Returns r) (c == b'"')
      (λ _. of_unquoted-Returns (unquote_double cs)) (λ _. tt)

module _ (ast : Ast) where
  open ast use {Node, view}

  find_entry-Returns : (sel : Bytes) (es : List (Entry Node)) → Returns (find_entry ast sel es)
  unfolding find_entry
  find_entry-Returns sel [] = tt
  find_entry-Returns sel (e ∷ es) =
      Returns-bind (plain_key e.key) _ (plain_key-Returns e.key) λ key.
        if_intro {A = Exec (Option (Entry Node))} (λ r. Returns r) (equal key sel) (λ _. tt)
          (λ _. find_entry-Returns sel es)

  select_view-Returns : (sel : Bytes) (v : View Node) → Returns (select_view ast sel v)
  unfolding select_view
  select_view-Returns sel (mapping es) =
      Returns-bind (find_entry ast sel es) _ (find_entry-Returns sel es) (λ found. tt)
  select_view-Returns sel (mapping_value e) = tt
  select_view-Returns sel (sequence items) = tt
  select_view-Returns sel other = tt

  index_items-Returns : (i : ℕ) (items : List Node) → Returns (index_items ast i items)
  unfolding index_items
  index_items-Returns i items = elim (Option-cases (get_elem? items i)) [
    | inl e ↦ rw (e, index_items, Returns) tt
    | inr (n, e) ↦ rw (e, index_items, Returns) tt
  ]

  index_view-Returns : (i : ℕ) (v : View Node) → Returns (index_view ast i v)
  unfolding index_view
  index_view-Returns i (sequence items) = index_items-Returns i items
  index_view-Returns i (mapping es) = tt
  index_view-Returns i (mapping_value e) = tt
  index_view-Returns i other = tt

  take_step-Returns : (s : Step) (n : Node) → Returns (take_step ast s n)
  unfolding take_step
  take_step-Returns (selector name) n = select_view-Returns (bare name) (view n)
  take_step-Returns (at_index i) n = index_view-Returns i (view n)

  -- On a node that is not nil the `filter` methods return, with a node, nothing or an error.
  pub filter-Returns : (steps : List Step) (n : Node) → Returns (filter ast steps n)
  unfolding filter
  filter-Returns [] n = tt
  filter-Returns (s ∷ []) n =
      Returns-bind (take_step ast s n) _ (take_step-Returns s n) (λ found. tt)
  filter-Returns (s ∷ t ∷ rest) n =
      Returns-bind (take_step ast s n) _ (take_step-Returns s n)
        (go (λ next. filter-Returns (t ∷ rest) next))
    where
      go :
          ((next : Node) → Returns (filter ast (t ∷ rest) next))
          → (found : Option (Node × Node))
          → Returns {A = Option Node}
              (elim found [ none ↦ ok none | some (named, next) ↦ filter ast (t ∷ rest) next ])
      go later none = tt
      go later (some (named, next)) = later next

  pub filter_ends : (steps : List Step) (n : Node) → filter ast steps n ≢ out_of_fuel
  filter_ends steps n = Returns-ne (filter ast steps n) (filter-Returns steps n)
    where
      Returns-ne : (r : Exec (Option Node)) → Returns r → r ≢ out_of_fuel
      Returns-ne (ok a) h = λ e. cc
      Returns-ne (err x) h = λ e. cc
      Returns-ne panic h = absurd h
      Returns-ne out_of_fuel h = absurd h
