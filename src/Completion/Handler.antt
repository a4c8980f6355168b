-- ===== src/Completion/Handler.antt =====
-- internal/completion/handler.go.
pub mod Offers
mod Tests
use nobl9_language_server.Base.{
  ℕ, ◌&&◌, ◌||◌, Bool, not, Option, none, some, List, [], ◌∷◌, ◌++◌, ltb, leb, if◌then◌else◌, Exec,
  ok, ◌>>=◌,
}
use nobl9_language_server.Text.{Bytes}
use nobl9_language_server.YamlAstSimple.Lines.{Line, is_type, get_key_pos, mapping, list, empty}
use nobl9_language_server.Files.{File, Decoder}
use nobl9_language_server.Files.Simple.{Sdk, SimpleObjectNode}
use nobl9_language_server.Files.System.{Platform, Fs, get_file}
use nobl9_language_server.Locate.{locate}
use nobl9_language_server.Completion.{
  Item, Params, ProviderType, keys_completion, values_completion, Provider,
}

unfoldable pub is_empty_list : Line → Bool
unfolding is_type
is_empty_list l = not (is_type l mapping) && is_type l list

-- The switch on the type of a provider: whether it is asked.
unfoldable pub is_asked : ProviderType → ℕ → Line → Bool
unfolding is_type get_key_pos is_empty_list
is_asked keys_completion c l =
    is_empty_list l
    || not (not (is_type l empty) && (ltb c (get_key_pos l).0 || ltb (get_key_pos l).1 c))
is_asked values_completion c l = not (leb c (get_key_pos l).1)

-- The loop over the providers.
unfoldable pub ask_providers :
    List Provider → Params → List SimpleObjectNode → SimpleObjectNode → Line → Exec (List Item)
unfolding is_asked
ask_providers [] params file node l = ok []
ask_providers (p ∷ ps) params file node l =
    let later = ask_providers ps params file node l in
    if is_asked p.provider_type params.position.character l
    then (p.complete params file node l >>= λ items. later >>= λ more. ok (items ++ more))
    else later

abbrev pub ask_at :
    List Provider
    → Params
    → List SimpleObjectNode
    → Option (SimpleObjectNode × Line)
    → Exec (Option (List Item))
ask_at providers params file none = ok none
ask_at providers params file (some (node, l)) =
    ask_providers providers params file node l >>= λ items. ok (some items)

module _ (platform : Platform) {N : Type 0} (sdk : Sdk) (decoder : Decoder N) where
  -- `Handle`; `none` is the nil result.
  unfoldable pub handle_completion : List Provider → Fs N → Params → Exec (Option (List Item))
  unfolding get_file locate ask_providers
  handle_completion providers fs params =
      get_file platform sdk decoder fs params.uri >>= λ (file : File N).
      if file.skip
      then ok none
      else ask_at providers params file.simple_ast (locate file.simple_ast params.position.line)
