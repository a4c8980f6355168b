-- ===== src/Completion/Handler/Tests.antt =====
-- Completion in an open file.
use nobl9_language_server.Base.{ℕ, ◌≡◌, refl, true, false, none, some, [], ◌∷◌, ok}
use nobl9_language_server.Text.{codes, equal, has_prefix}
use nobl9_language_server.Manifest.{agent_kind, service_kind, other}
use nobl9_language_server.YamlAstSimple.Lines.{Line, mapping}
use nobl9_language_server.YamlAstSimple.Lexer.{plain_line}
use nobl9_language_server.Files.{File, Decoder, pos}
use nobl9_language_server.Files.Simple.{Sdk}
use nobl9_language_server.Files.System.{Fs, Platform}
use nobl9_language_server.Completion.{Params, GetProperty}
use nobl9_language_server.Completion.Values.{Names, value_item, complete_values}
use nobl9_language_server.Completion.References.{ObjectsRepo, complete_references}
use nobl9_language_server.Completion.Handler.{handle_completion}
use nobl9_language_server.Completion.Handler.Offers.{
  providers, IsAnswer, handle_completion-IsAnswer,
}

abbrev sdk : Sdk
sdk = record {
  parse_kind = λ s. agent_kind;
  is_kind = λ s. true;
  parse_version = λ s. s;
  is_version = λ s. true;
  version_v1alpha = codes "n9/v1alpha";
}

abbrev platform : Platform
platform = record { scheme = λ uri. ok (codes "file"); to_slash = λ s. s; matches = λ p s. ok true }

abbrev decoder : Decoder ℕ
decoder = record {
  parser = λ content. ok [];
  fields = λ n. none;
  decode = λ kind n. ok (record { scope = none; spec = other });
}

abbrev nothing : ObjectsRepo
nothing = record {
  get_all_names = λ kind project. ok [];
  get_object = λ kind name project. ok none;
  get_users = λ phrase. ok [];
  get_roles = ok none;
}

abbrev no_docs : GetProperty
no_docs kind path = ok none

abbrev names : Names
names = record { kind_names = codes "SLO" ∷ []; version_names = codes "n9/v1alpha" ∷ [] }

abbrev kind_line : Line
kind_line = record (plain_line mapping 0 (codes "kind: ")) {
  path = codes "$.kind";
  generalized_path = codes "$.kind";
  colon = some 4;
}

abbrev file : File ℕ
file = record {
  uri = codes "u";
  content = codes "kind: ";
  version = pos 1;
  skip = false;
  objects = [];
  simple_ast =
      record {
        kind = service_kind;
        version = [];
        doc = record { offset = 0; lines = kind_line ∷ [] };
        list_element = none;
      }
      ∷ [];
  error = none;
}

abbrev fs : Fs ℕ
fs = record { files = λ uri. some file; file_patterns = [] }

abbrev behind_key : Params
behind_key = record {
  uri = codes "u";
  position = record { line = 0; character = 6 };
  trigger_character = none;
}

handle_completion-IsAnswer_example :
    IsAnswer names no_docs sdk nothing [] platform decoder fs behind_key (
      handle_completion platform sdk decoder (providers names no_docs sdk nothing []) fs behind_key)
handle_completion-IsAnswer_example =
    handle_completion-IsAnswer names no_docs sdk nothing [] platform decoder fs behind_key

kind_values :
    handle_completion platform sdk decoder (providers names no_docs sdk nothing []) fs behind_key
    ≡ ok (some (value_item (codes "SLO") ∷ []))
unfolding handle_completion providers codes equal has_prefix complete_values complete_references
kind_values = refl
