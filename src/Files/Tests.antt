-- ===== src/Files/Tests.antt =====
-- Runs of the file system and of the simple objects.
use nobl9_language_server.Base.{ℕ, ◌≡◌, refl, true, none, some, [], ◌∷◌, ok, Returns}
use nobl9_language_server.Text.{Bytes, codes, split, equal, last_index, index}
use nobl9_language_server.Text.Runes.{runes, is_space, trim_space}
use nobl9_language_server.Text.Decimal.{itoa}
use nobl9_language_server.YamlAstSimple.Scan.{
  get_indent_level, is_mapping_node, is_block_scalar, get_colon_index,
}
use nobl9_language_server.Manifest.{service_kind, other}
use nobl9_language_server.YamlAst.{single}
use nobl9_language_server.YamlAstSimple.Lines.{Document, get_map_value}
use nobl9_language_server.YamlAstSimple.Lexer.{plain_line}
use nobl9_language_server.Files.{File, pos, Decoder}
use nobl9_language_server.Files.Simple.{Sdk, split_list_document, parse_simple_object_file}
use nobl9_language_server.Files.Simple.Elements.{AreSplit, split_list_document-AreSplit}
use nobl9_language_server.Files.System.{Fs, Platform, open_file, new_file}
use nobl9_language_server.Base.{false}
use nobl9_language_server.Files.System.{update_file}
use nobl9_language_server.Files.System.Versions.{IsUpdated, update_file-IsUpdated}
use nobl9_language_server.Files.System.Laws.{IsCurrent}
use nobl9_language_server.Files.System.Reachability.{new_fs, next, opened, Reachable-IsWellFormed}

abbrev two_services : Document
two_services = record {
  offset = 3;
  lines =
      record (plain_line 0 0 []) { path = codes "$[0].a" }
      ∷ plain_line 0 0 []
      ∷ record (plain_line 0 0 []) { path = codes "$[1].a" }
      ∷ [];
}

split_list_document-AreSplit_example :
    AreSplit 3 two_services.lines (split_list_document two_services)
split_list_document-AreSplit_example = split_list_document-AreSplit two_services

abbrev local : Platform
local = record { scheme = λ uri. ok (codes "file"); to_slash = λ s. s; matches = λ p s. ok true }

abbrev services : Sdk
services = record {
  parse_kind = λ s. service_kind;
  is_kind = λ s. true;
  parse_version = λ s. s;
  is_version = λ s. true;
  version_v1alpha = codes "n9/v1alpha";
}

-- Every text is one document, a mapping of these two entries.
abbrev one_service : Decoder ℕ
one_service = record {
  parser = λ content. ok (record { start = none; body = some (single 1 0) } ∷ []);
  fields = λ n. some (
      (some (codes "apiVersion"), some (codes "n9/v1alpha"))
      ∷ (some (codes "kind"), some (codes "Service"))
      ∷ []);
  decode = λ kind n. ok (record { scope = none; spec = other });
}

abbrev first_fs : Fs ℕ
first_fs = record { files = λ uri. none; file_patterns = [] }

abbrev uri : Bytes
uri = codes "file:///a"

abbrev content : Bytes
content = codes "apiVersion: n9/v1alpha"

abbrev opened_fs : Fs ℕ
opened_fs = (open_file local services one_service first_fs uri content (pos 1)).0

opened_well : Returns (open_file local services one_service first_fs uri content (pos 1)).1
unfolding open_file codes split equal get_indent_level runes is_mapping_node is_block_scalar
    get_colon_index is_space trim_space last_index itoa get_map_value index parse_simple_object_file
opened_well = tt

abbrev stored : File ℕ
stored = elim (opened_fs.files uri) [ none ↦ new_file local services one_service uri | some f ↦ f ]

Reachable-IsWellFormed_example : (stored.uri ≡ uri) × IsCurrent local services one_service stored
unfolding open_file codes split equal get_indent_level runes is_mapping_node is_block_scalar
    get_colon_index is_space trim_space last_index itoa get_map_value index parse_simple_object_file
Reachable-IsWellFormed_example =
    Reachable-IsWellFormed local services one_service {patterns = []} {fs = opened_fs}
      (next new_fs (opened uri content (pos 1) opened_well)) uri stored refl

update_file-IsUpdated_example :
    ((g : File ℕ) × ((update_file local services one_service opened_fs uri content (pos 2)).0.files
          uri
        ≡ some g)
      × IsUpdated local services one_service (pos 2) stored g)
    × ((other : Bytes)
        → equal other uri ≡ false
        → (update_file local services one_service opened_fs uri content (pos 2)).0.files other
          ≡ opened_fs.files other)
unfolding open_file codes split equal get_indent_level runes is_mapping_node is_block_scalar
    get_colon_index is_space trim_space
update_file-IsUpdated_example =
    update_file-IsUpdated local services one_service opened_fs uri content (pos 2) stored refl
