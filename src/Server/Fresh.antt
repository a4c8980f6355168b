-- ===== src/Server/Fresh.antt =====
-- The order between the updates that are under way and the files of the server.
pub mod Requests
pub mod Notified
use nobl9_language_server.Base.{
  ℕ, ◌≡◌, ◌≢◌, ◌⊎◌, refl, sym, ap, ◌∙◌, inl, inr, Bool, true, false, ◌&&◌, not, Option, none, some,
  List, [], ◌∷◌, ◌++◌, All, All-append, Option-cases, Bool-cases, Exec, ok, err, panic, out_of_fuel,
  Done, Returns, if_intro, arith, ◌>>=◌, if◌then◌else◌,
}
use mathlib.Core.Path.{subst}
use nobl9_language_server.Text.{Bytes, equal}
use nobl9_language_server.Files.{File, ℤ, is_later, Decoder}
use nobl9_language_server.Files.Simple.{Sdk}
use nobl9_language_server.Files.System.{Platform, Fs, get_file, open_file, update_file}
use nobl9_language_server.Diagnostics.{Diagnostics}
use nobl9_language_server.Diagnostics.Handler.{
  Published, handle, publish, published, sort, same_version,
}
use nobl9_language_server.Server.{
  TextDocumentItem, DidChangeParams, Server, new_server, handle_initialize, handle_initialized,
  handle_shutdown, then_send, handle_did_open, handle_did_change, change_with, language_id,
}
use nobl9_language_server.Server.Mux.{
  Method, initialize, initialized, shutdown, did_open, did_close, did_save, did_change, completion,
  hover, code_action, execute_command, set_trace, log_trace, cancel_request, method_names,
  find_method, Request, Codec, HandlersRegistry, Reply, Outcome, parse_request_parameters,
  with_params, nil_after, call_method, recovered, call_found, handle_request,
}
use nobl9_language_server.Server.Steps.{
  send_update, begun_with, begin_update, ended_with, end_update, Step, requested, sent, began,
  ended, Reaches, started, next,
}
use nobl9_language_server.Server.Order.{
  is_later_irrefl, Later, Later-trans, Later-keeps, Grows, Grows-refl, Offers, open_file-Offers,
  update_file-Offers,
}

module _ {N : Type 0} where
  -- The file of an update is there, with no earlier version.
  abbrev pub IsHeld : Fs N → TextDocumentItem → Type 0
  IsHeld fs item =
      (f : File N) × (fs.files item.uri ≡ some f) × (is_later item.version f.version ≡ false)

  abbrev pub SendingIsHeld : Fs N → Option TextDocumentItem → Type 0
  SendingIsHeld fs none = Unit
  SendingIsHeld fs (some item) = IsHeld fs item

  -- The file that the loop began with had no earlier version than its update, and has stayed or
  -- moved on.
  abbrev pub DiagnosingIsHeld : Fs N → Option (TextDocumentItem × File N) → Type 0
  DiagnosingIsHeld fs none = Unit
  DiagnosingIsHeld fs (some (item, f)) =
      (is_later item.version f.version ≡ false)
      × ((g : File N) × (fs.files item.uri ≡ some g) × Later f g)

  abbrev pub IsOrdered : Server N → Type 0
  IsOrdered s =
      SendingIsHeld s.files s.sending
      × All (IsHeld s.files) s.document_updates
      × DiagnosingIsHeld s.files s.diagnosing

  pub IsHeld-Grows :
      (fs fs' : Fs N) (item : TextDocumentItem) → Grows fs fs' → IsHeld fs item → IsHeld fs' item
  IsHeld-Grows fs fs' item grows (f, e, v) =
      let (g, e', later) = grows item.uri f e in (g, e', Later-keeps item.version f g v later)

  All-Grows :
      (fs fs' : Fs N) (items : List TextDocumentItem)
      → Grows fs fs'
      → All (IsHeld fs) items
      → All (IsHeld fs') items
  All-Grows fs fs' [] grows h = tt
  All-Grows fs fs' (i ∷ is) grows (h, hs) =
      (IsHeld-Grows fs fs' i grows h, All-Grows fs fs' is grows hs)

  SendingIsHeld-Grows :
      (fs fs' : Fs N) (o : Option TextDocumentItem)
      → Grows fs fs'
      → SendingIsHeld fs o
      → SendingIsHeld fs' o
  SendingIsHeld-Grows fs fs' none grows h = tt
  SendingIsHeld-Grows fs fs' (some item) grows h = IsHeld-Grows fs fs' item grows h

  DiagnosingIsHeld-Grows :
      (fs fs' : Fs N) (o : Option (TextDocumentItem × File N))
      → Grows fs fs'
      → DiagnosingIsHeld fs o
      → DiagnosingIsHeld fs' o
  DiagnosingIsHeld-Grows fs fs' none grows h = tt
  DiagnosingIsHeld-Grows fs fs' (some (item, f)) grows (v, (g, e, later)) =
      let (k, e', later') = grows item.uri g e in (v, (k, e', Later-trans f g k later later'))

  pub moved_on :
      (s : Server N) (fs : Fs N)
      → Grows s.files fs
      → IsOrdered s
      → IsOrdered (record s { files = fs })
  moved_on s fs grows (a, b, c) = (
    SendingIsHeld-Grows s.files fs s.sending grows a,
    All-Grows s.files fs s.document_updates grows b,
    DiagnosingIsHeld-Grows s.files fs s.diagnosing grows c,
  )

  pub then_send-IsOrdered :
      (s : Server N) (item : TextDocumentItem) (r : Fs N × Done)
      → Grows s.files r.0
      → (r.1 ≡ ok tt → IsHeld r.0 item)
      → IsOrdered s
      → IsOrdered (then_send s item r).0
  unfolding then_send
  then_send-IsOrdered s item (fs, ok u) grows h o =
      let (a, b, c) = moved_on s fs grows o in (h refl, b, c)
  then_send-IsOrdered s item (fs, err e) grows h o = moved_on s fs grows o
  then_send-IsOrdered s item (fs, panic) grows h o = moved_on s fs grows o
  then_send-IsOrdered s item (fs, out_of_fuel) grows h o = moved_on s fs grows o
