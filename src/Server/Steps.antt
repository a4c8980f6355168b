-- ===== src/Server/Steps.antt =====
-- internal/server/server.go: the steps of the server. Requests are handled one at a time, in their
-- order, since the handler of the connection is not asynchronous; the loop of the diagnostics runs
-- beside them. A request, a send to the channel, the begin and the end of a
-- diagnosis, and the notification of its outcome are steps.
use nobl9_language_server.Base.{
  ℕ, ◌<◌, ◌≡◌, Option, none, some, List, [], ◌∷◌, ◌++◌, length, true, Exec, ok, err, panic,
  out_of_fuel, if◌then◌else◌, Returns,
}
use nobl9_language_server.Text.{Bytes}
use nobl9_language_server.Files.{File, Decoder}
use nobl9_language_server.Files.Simple.{Sdk}
use nobl9_language_server.Files.System.{Platform, get_file}
use nobl9_language_server.Diagnostics.{Diagnostics}
use nobl9_language_server.Diagnostics.Handler.{Published, handle}
use nobl9_language_server.Server.{TextDocumentItem, Server, capacity, new_server}
use nobl9_language_server.Server.Mux.{Request, Codec, HandlersRegistry, handle_request}
use nobl9_language_server.Base.{Done}

-- `s.notifier.Notify`, where the connection takes the notification.
unfoldable pub notify_update : {N : Type 0} → Published → Server N → Server N
notify_update p s = record s { notifying = none; notified = s.notified ++ p ∷ [] }

-- `s.documentUpdates <- …`.
unfoldable pub send_update : {N : Type 0} → TextDocumentItem → Server N → Server N
send_update item s = record s { sending = none; document_updates = s.document_updates ++ item ∷ [] }

module _ (platform : Platform) {N : Type 0} (sdk : Sdk) (decoder : Decoder N)
    (diagnose : File N → Diagnostics) where
  -- The first look-up of the file, which ends the handling of the update where the file is missing
  -- or skipped.
  abbrev pub begun_with : TextDocumentItem → Exec (File N) → Option (TextDocumentItem × File N)
  begun_with item (ok f) = if f.skip then none else some (item, f)
  begun_with item _ = none

  -- The loop takes the next update.
  unfoldable pub begin_update : TextDocumentItem → List TextDocumentItem → Server N → Server N
  unfolding get_file
  begin_update item rest s = record s {
    document_updates = rest;
    diagnosing = begun_with item (get_file platform sdk decoder s.files item.uri);
  }

  -- What is to be notified of the outcome; an error is logged and a panic is recovered. While the
  -- diagnosis does not end, nor does the handling of the update.
  abbrev pub ended_with : Exec (Option Published) → Server N → Server N
  ended_with (ok none) s = record s { diagnosing = none }
  ended_with (ok (some p)) s = record s { diagnosing = none; notifying = some p }
  ended_with (err e) s = record s { diagnosing = none }
  ended_with panic s = record s { diagnosing = none }
  ended_with out_of_fuel s = s

  -- The diagnosis ends, and `Handle` looks at the file again.
  unfoldable pub end_update : TextDocumentItem → File N → Server N → Server N
  unfolding handle get_file
  end_update item f s =
      ended_with
        (handle diagnose item.uri item.version (ok f)
          (get_file platform sdk decoder s.files item.uri))
        s

  module _ {Raw : Type 0} (codec : Codec Raw) (registry : HandlersRegistry N) (lsp_version : Bytes)
      (close : ℕ → Done) (allowed : Request Raw → Type 0) where
    -- A step, with requests of the kind that is allowed.
    pub data Step (s : Server N) : Server N → Type 0 where
      requested :
          (conn : ℕ) (request : Request Raw)
          → allowed request
          → s.sending ≡ none
          → Returns
              (handle_request platform sdk decoder codec registry lsp_version close conn request
                s).1
          → Step s
              (handle_request platform sdk decoder codec registry lsp_version close conn request
                s).0
      sent :
          (item : TextDocumentItem)
          → s.sending ≡ some item
          → length s.document_updates < capacity
          → Step s (send_update item s)
      began :
          (item : TextDocumentItem) (rest : List TextDocumentItem)
          → s.loop_started ≡ true
          → s.diagnosing ≡ none
          → s.notifying ≡ none
          → s.document_updates ≡ item ∷ rest
          → Step s (begin_update item rest s)
      ended :
          (item : TextDocumentItem) (f : File N)
          → s.diagnosing ≡ some (item, f)
          → Step s (end_update item f s)
      notifies : (p : Published) → s.notifying ≡ some p → Step s (notify_update p s)

    pub data Reaches (patterns : List Bytes) : Server N → Type 0 where
      started : Reaches patterns (new_server patterns)
      next : {s s' : Server N} → Reaches patterns s → Step s s' → Reaches patterns s'
