-- ===== src/Server/Tests.antt =====
-- A session: a document is opened, the client is initialized, and the document is diagnosed.
use nobl9_language_server.Base.{ℕ, ◌≡◌, refl, true, none, some, [], ◌∷◌, ok, Option, Done, arith}
use nobl9_language_server.Text.{codes, equal, split, last_index, index, contains, has_prefix}
use nobl9_language_server.Text.Runes.{runes, is_space, trim_space}
use nobl9_language_server.Text.Decimal.{itoa}
use nobl9_language_server.Manifest.{service_kind, other}
use nobl9_language_server.YamlAstSimple.Scan.{
  get_indent_level, is_mapping_node, is_block_scalar, get_colon_index,
}
use nobl9_language_server.YamlAstSimple.Lines.{get_map_value}
use nobl9_language_server.Files.{File, Decoder, pos}
use nobl9_language_server.Files.Simple.{Sdk, parse_simple_object_file}
use nobl9_language_server.Files.System.{Platform, open_file, get_file, new_file}
use nobl9_language_server.Diagnostics.{Diagnostics}
use nobl9_language_server.Server.{TextDocumentItem, Server, new_server, handle_did_open}
use nobl9_language_server.Server.Mux.{
  did_open, Codec, Request, HandlersRegistry, find_method, method_names, handle_request,
}
use nobl9_language_server.Server.Mux.Replies.{IsAnswered, handle_request-IsAnswered}
use nobl9_language_server.Server.Steps.{
  started, next, requested, sent, began, ended, send_update, begin_update, end_update,
}
use nobl9_language_server.Server.Fresh.Requests.{ClosesNothing}
use nobl9_language_server.Server.Fresh.Notified.{OpenReaches, NotifiesFresh, Reaches-NotifiesFresh}
use nobl9_language_server.Server.Capacity.{IsIdle, Reaches-IsIdle}

abbrev platform : Platform
platform = record { scheme = λ uri. ok (codes "file"); to_slash = λ s. s; matches = λ p s. ok true }

abbrev sdk : Sdk
sdk = record {
  parse_kind = λ s. service_kind;
  is_kind = λ s. true;
  parse_version = λ s. s;
  is_version = λ s. true;
  version_v1alpha = codes "n9/v1alpha";
}

abbrev decoder : Decoder ℕ
decoder = record {
  parser = λ content. ok [];
  fields = λ n. none;
  decode = λ kind n. ok (record { scope = none; spec = other });
}

-- Parameters that are items already.
abbrev codec : Codec TextDocumentItem
codec = record {
  to_initialize = λ raw. ok tt;
  to_item = λ raw. ok raw;
  to_uri = λ raw. ok raw.uri;
  to_change =
      λ raw. ok (record { uri = raw.uri; version = raw.version; content_changes = raw.text ∷ [] });
  to_completion = λ raw. ok (record {
    uri = raw.uri;
    position = record { line = 0; character = 0 };
    trigger_character = none;
  });
  to_hover = λ raw. ok (record { uri = raw.uri; position = record { line = 0; character = 0 } });
  to_execute = λ raw. ok (raw.uri, []);
  to_ignored = λ raw. ok tt;
}

abbrev registry : HandlersRegistry ℕ
registry = record {
  complete = λ fs params. ok none;
  hover_over = λ fs params. ok none;
  offer_actions = λ uri. [];
  execute = λ fs params. ok tt;
}

abbrev close : ℕ → Done
close conn = ok tt

abbrev diagnose : File ℕ → Diagnostics
diagnose f = ok []

abbrev item : TextDocumentItem
item = record {
  uri = codes "u";
  language_id = codes "yaml";
  version = pos 1;
  text = codes "apiVersion: n9/v1alpha";
}

abbrev open_request : Request TextDocumentItem
open_request = record { method = codes "textDocument/didOpen"; params = some item }

abbrev initialized_request : Request TextDocumentItem
initialized_request = record { method = codes "initialized"; params = none }

abbrev answer : Request TextDocumentItem → Server ℕ → Server ℕ
answer request s = (handle_request platform sdk decoder codec registry [] close 0 request s).0

abbrev opened : Server ℕ
opened = answer open_request (new_server [])

abbrev queued : Server ℕ
queued = send_update item opened

abbrev ready : Server ℕ
ready = answer initialized_request queued

abbrev file : File ℕ
file = record (new_file platform sdk decoder (codes "u")) {
  content = codes "apiVersion: n9/v1alpha";
  version = pos 1;
}

abbrev busy : Server ℕ
busy = begin_update platform sdk decoder diagnose item [] ready

abbrev the_file : Option (TextDocumentItem × File ℕ) → File ℕ
the_file none = file
the_file (some (i, f)) = f

open-ClosesNothing : ClosesNothing platform sdk decoder codec registry [] close open_request
unfolding find_method method_names codes equal
open-ClosesNothing = λ e. cc

initialized-ClosesNothing :
    ClosesNothing platform sdk decoder codec registry [] close initialized_request
unfolding find_method method_names codes equal
initialized-ClosesNothing = λ e. cc

reaches_busy : OpenReaches platform sdk decoder diagnose codec registry [] close [] busy
unfolding handle_request handle_did_open open_file codes split equal get_indent_level runes
    is_mapping_node is_block_scalar get_colon_index is_space trim_space last_index itoa
    get_map_value index parse_simple_object_file contains has_prefix send_update begin_update
    new_server get_file
reaches_busy =
    next
      (next
        (next (next started (requested 0 open_request open-ClosesNothing refl tt))
          (sent item refl (omega arith)))
        (requested 0 initialized_request initialized-ClosesNothing refl tt))
      (began item [] refl refl refl refl)

Reaches-NotifiesFresh_example :
    NotifiesFresh platform sdk decoder diagnose busy
      (end_update platform sdk decoder diagnose item (the_file busy.diagnosing) busy)
unfolding handle_request handle_did_open open_file codes split equal get_indent_level runes
    is_mapping_node is_block_scalar get_colon_index is_space trim_space last_index itoa
    get_map_value index parse_simple_object_file contains has_prefix send_update begin_update
    new_server get_file
Reaches-NotifiesFresh_example =
    Reaches-NotifiesFresh platform sdk decoder diagnose codec registry [] close {patterns = []}
      {s = busy}
      {s' = end_update platform sdk decoder diagnose item (the_file busy.diagnosing) busy}
      reaches_busy (ended item (the_file busy.diagnosing) refl)

Reaches-IsIdle_example : IsIdle queued
unfolding handle_request handle_did_open open_file codes split equal get_indent_level runes
    is_mapping_node is_block_scalar get_colon_index is_space trim_space last_index itoa
    get_map_value index parse_simple_object_file contains has_prefix send_update new_server
Reaches-IsIdle_example =
    Reaches-IsIdle platform sdk decoder codec registry [] close diagnose {patterns = []}
      {s = queued}
      (next (next started (requested 0 open_request (λ e. cc) refl tt))
        (sent item refl (omega arith)))

handle_request-IsAnswered_example :
    IsAnswered platform sdk decoder codec registry [] close
      (some did_open)
      (some item)
      (new_server [])
      (handle_request platform sdk decoder codec registry [] close 0 open_request (new_server []))
unfolding find_method method_names codes equal
handle_request-IsAnswered_example =
    handle_request-IsAnswered platform sdk decoder codec registry [] close 0 open_request
      (new_server [])

-- The outcome of the diagnosis is to be notified.
is_notified :
    (end_update platform sdk decoder diagnose item (the_file busy.diagnosing) busy).notifying
    ≡ some (record { uri = codes "u"; version = pos 1; diagnostics = [] })
unfolding handle_request handle_did_open open_file codes split equal get_indent_level runes
    is_mapping_node is_block_scalar get_colon_index is_space trim_space last_index itoa
    get_map_value index parse_simple_object_file contains has_prefix send_update begin_update
    new_server get_file end_update
is_notified = refl
