-- ===== src/Completion/Keys/Tests.antt =====
-- Keys completed below the root.
use nobl9_language_server.Base.{◌≡◌, refl, none, [], ◌∷◌, ok, map, Exec, List}
use nobl9_language_server.Text.{codes, equal}
use nobl9_language_server.Manifest.{no_kind, same_kind, kind_number}
use nobl9_language_server.YamlAstSimple.Lines.{Line, undefined}
use nobl9_language_server.YamlAstSimple.Lexer.{plain_line}
use nobl9_language_server.Completion.{Item, GetProperty}
use nobl9_language_server.Completion.Keys.{complete_keys}

abbrev no_docs : GetProperty
no_docs kind path = ok none

-- A line on which a key is begun.
abbrev begun : Line
begun = record (plain_line undefined 0 (codes "ki")) {
  path = b'$' ∷ [];
  generalized_path = b'$' ∷ [];
}

abbrev items_of : Exec (List Item) → List Item
items_of (ok items) = items
items_of _ = []

kind_is_completed :
    map (λ (item : Item). item.insert_text) (items_of (complete_keys no_docs no_kind begun))
    ≡ codes "apiVersion: " ∷ codes "kind: " ∷ codes "metadata:\n  " ∷ codes "spec:\n  " ∷ []
unfolding codes complete_keys equal same_kind kind_number
kind_is_completed = refl
