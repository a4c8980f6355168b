-- ===== src/CodeActions/Tests.antt =====
-- A command on a file that became unreadable.
use nobl9_language_server.Base.{
  ℕ, ◌≡◌, refl, true, false, none, some, List, [], ◌∷◌, Exec, ok, err, external,
}
use nobl9_language_server.Text.{Bytes, codes, split, equal, last_index, index}
use nobl9_language_server.Text.Runes.{runes, is_space, trim_space}
use nobl9_language_server.Text.Decimal.{itoa}
use nobl9_language_server.Manifest.{service_kind, other}
use nobl9_language_server.YamlAst.{parse}
use nobl9_language_server.YamlAstSimple.Scan.{
  get_indent_level, is_mapping_node, is_block_scalar, get_colon_index,
}
use nobl9_language_server.YamlAstSimple.Lines.{get_map_value}
use nobl9_language_server.Files.{File, pos, is_later, Decoder, update}
use nobl9_language_server.Files.Simple.{Sdk, SimpleObjectNode, parse_simple_object_file}
use nobl9_language_server.CodeActions.{Services, apply_objects, objects_of, handle_execute_command}
use nobl9_language_server.CodeActions.Stale.{execute-update_broken}

abbrev sdk : Sdk
sdk = record {
  parse_kind = λ s. service_kind;
  is_kind = λ s. true;
  parse_version = λ s. s;
  is_version = λ s. true;
  version_v1alpha = codes "n9/v1alpha";
}

abbrev refusing : Decoder ℕ
refusing = record {
  parser = λ content. err (external 1);
  fields = λ n. none;
  decode = λ kind n. err (external 2);
}

abbrev services : Services
services = record { send = λ request. ok tt; notify = λ message. ok tt }

-- One object was read from the first version.
abbrev first_version : File ℕ
first_version = record {
  uri = codes "u";
  content = codes "kind: Service";
  version = pos 1;
  skip = false;
  objects =
      record {
        kind = service_kind;
        version = codes "n9/v1alpha";
        object = some (record { scope = none; spec = other });
        node = record { node = some 0; start_line = 1; end_line = 1; is_separator = false };
        error = none;
      }
      ∷ [];
  simple_ast = [];
  error = none;
}

abbrev lines_of : Exec (List SimpleObjectNode) → List SimpleObjectNode
lines_of (ok nodes) = nodes
lines_of _ = []

abbrev broken : Bytes
broken = codes "a: ["

execute-update_broken_example :
    ((update sdk refusing (pos 2) broken first_version).0.content ≡ broken)
    × ((update sdk refusing (pos 2) broken first_version).0.error ≡ some (external 1))
    × ((handle_execute_command services
          (λ u. ok (update sdk refusing (pos 2) broken first_version).0)
          (codes "APPLY")
          (some (codes "u") ∷ [])).requests
        ≡ apply_objects (objects_of services first_version.objects) ∷ [])
unfolding is_later parse parse_simple_object_file codes split equal get_indent_level runes
    is_mapping_node is_block_scalar get_colon_index is_space trim_space last_index itoa
    get_map_value index
execute-update_broken_example =
    execute-update_broken sdk refusing services (pos 2) broken (codes "u") first_version
      (lines_of (parse_simple_object_file sdk broken)) (external 1) [] refl refl refl
