-- ===== src/Server.antt =====
-- internal/server/server.go: the state of the server and its handlers. A handler that sends an update
-- to the loop of the diagnostics leaves the send in the state: the channel may be full. The decoded
-- parameters, and the handlers of the other components, come from the children.
pub mod Mux
pub mod Registry
pub mod Steps
pub mod Order
pub mod Fresh
pub mod Capacity
mod Tests
use nobl9_language_server.Base.{
  ℕ, Bool, true, false, not, Option, none, some, List, [], ◌∷◌, if◌then◌else◌, Exec, ok, err, panic,
  out_of_fuel, Done, Error, invalid_language,
}
use nobl9_language_server.Text.{Bytes, codes, equal}
use nobl9_language_server.Files.{File, ℤ, Decoder}
use nobl9_language_server.Files.Simple.{Sdk}
use nobl9_language_server.Files.System.{Platform, Fs, open_file, update_file, close_file}
use nobl9_language_server.Diagnostics.Handler.{Published}

-- `TextDocumentItem`, which is all that a `documentUpdateEvent` holds.
pub record TextDocumentItem : Type 0 where
  pub uri : Bytes
  pub language_id : Bytes
  pub version : ℤ
  pub text : Bytes

-- `DidChangeParams`, with the texts of its changes.
pub record DidChangeParams : Type 0 where
  pub uri : Bytes
  pub version : ℤ
  pub content_changes : List Bytes

-- The fields of `Server` that change. `sending` is an update that a handler is about to send, and
-- `diagnosing` the update that the loop is at, with the file it began with. `notifying` is what the
-- loop is about to notify. A connection is a number.
pub record Server (N : Type 0) : Type 0 where
  pub initialized : Bool
  pub conn : Option ℕ
  pub files : Fs N
  pub sending : Option TextDocumentItem
  pub document_updates : List TextDocumentItem
  pub loop_started : Bool
  pub diagnosing : Option (TextDocumentItem × File N)
  pub notifying : Option Published
  pub notified : List Published

-- The capacity of the channel.
abbrev pub capacity : ℕ
capacity = 10

unfoldable pub language_id : Bytes
unfolding codes
language_id = codes "yaml"

module _ {N : Type 0} where
  -- `New`, with what `NewFS` makes.
  unfoldable pub new_server : List Bytes → Server N
  new_server patterns = record {
    initialized = false;
    conn = none;
    files = record { files = λ uri. none; file_patterns = patterns };
    sending = none;
    document_updates = [];
    loop_started = false;
    diagnosing = none;
    notifying = none;
    notified = [];
  }

  -- `CompareAndSwap`: the connection of the first request is kept.
  unfoldable pub handle_initialize : ℕ → Server N → Server N
  handle_initialize conn s =
      if s.initialized then s else record s { initialized = true; conn = some conn }

  -- `Do` of the `Once`.
  unfoldable pub handle_initialized : Server N → Server N
  handle_initialized s = record s { loop_started = true }

  -- `Close` of a connection that may be nil.
  unfoldable pub handle_shutdown : (ℕ → Done) → Server N → Done
  handle_shutdown close s = elim s.conn [ none ↦ panic | some conn ↦ close conn ]

  -- What a handler does with the answer of the file system: where it is no error, it sends.
  unfoldable pub then_send : Server N → TextDocumentItem → Fs N × Done → Server N × Done
  then_send s item (fs, ok u) = (record s { files = fs; sending = some item }, ok u)
  then_send s item (fs, err e) = (record s { files = fs }, err e)
  then_send s item (fs, panic) = (record s { files = fs }, panic)
  then_send s item (fs, out_of_fuel) = (record s { files = fs }, out_of_fuel)

module _ (platform : Platform) {N : Type 0} (sdk : Sdk) (decoder : Decoder N) where
  unfoldable pub handle_did_open : TextDocumentItem → Server N → Server N × Done
  unfolding equal language_id then_send open_file
  handle_did_open item s =
      if not (equal item.language_id language_id)
      then (s, err invalid_language)
      else then_send s item (open_file platform sdk decoder s.files item.uri item.text item.version)

  unfoldable pub handle_did_close : Bytes → Server N → Server N × Done
  unfolding close_file
  handle_did_close uri s =
      let closed = close_file platform sdk decoder s.files uri in
      (record s { files = closed.0 }, closed.1)

  -- Anything but one change is passed over.
  abbrev pub change_with : DidChangeParams → List Bytes → Server N → Server N × Done
  change_with params (text ∷ []) s =
      then_send s
        (record {
          uri = params.uri;
          language_id = language_id;
          version = params.version;
          text = text;
        })
        (update_file platform sdk decoder s.files params.uri text params.version)
  change_with params _ s = (s, ok tt)

  unfoldable pub handle_did_change : DidChangeParams → Server N → Server N × Done
  unfolding language_id then_send update_file
  handle_did_change params s = change_with params params.content_changes s
