-- ===== src/Server/Fresh/Requests.antt =====
-- Requests keep the order, and notify nothing.
use nobl9_language_server.Base.{
  ℕ, ◌≡◌, ◌≢◌, refl, ap, not, Option, none, some, List, [], ◌∷◌, Exec, ok, err, panic, out_of_fuel,
  Done, if_intro,
}
use nobl9_language_server.Text.{Bytes, equal}
use nobl9_language_server.Files.{Decoder}
use nobl9_language_server.Files.Simple.{Sdk}
use nobl9_language_server.Files.System.{Platform, Fs, open_file, update_file}
use nobl9_language_server.Server.{
  TextDocumentItem, DidChangeParams, Server, handle_initialize, handle_initialized, then_send,
  handle_did_open, handle_did_change, change_with, language_id,
}
use nobl9_language_server.Server.Mux.{
  Method, initialize, initialized, shutdown, did_open, did_close, did_save, did_change, completion,
  hover, code_action, execute_command, set_trace, log_trace, cancel_request, method_names,
  find_method, Request, Codec, HandlersRegistry, Outcome, parse_request_parameters, with_params,
  call_method, recovered, call_found, handle_request,
}
use nobl9_language_server.Server.Order.{
  Grows, Grows-refl, Offers, open_file-Offers, update_file-Offers,
}
use nobl9_language_server.Server.Fresh.{IsOrdered, then_send-IsOrdered}

-- What a handler leaves: the order is kept, nothing is notified, and every file stays or moves on.
abbrev pub IsQuiet : {N : Type 0} → Server N → Server N → Type 0
IsQuiet s s' =
    (IsOrdered s → IsOrdered s')
    × (s'.notified ≡ s.notified)
    × (s'.notifying ≡ s.notifying)
    × Grows s.files s'.files

IsQuiet-refl : {N : Type 0} (s : Server N) → IsQuiet s s
IsQuiet-refl s = (λ o. o, refl, refl, Grows-refl s.files)

with_params-IsQuiet {ℓ} :
    {N : Type 0} {A : Type ℓ} (s : Server N) (r : Exec A) (f : A → Outcome N)
    → ((a : A) → IsQuiet s (f a).0)
    → IsQuiet s (with_params s r f).0
with_params-IsQuiet s (ok a) f h = h a
with_params-IsQuiet s (err e) f h = IsQuiet-refl s
with_params-IsQuiet s panic f h = IsQuiet-refl s
with_params-IsQuiet s out_of_fuel f h = IsQuiet-refl s

handle_initialize-IsQuiet :
    {N : Type 0} (conn : ℕ) (s : Server N) → IsQuiet s (handle_initialize conn s)
unfolding handle_initialize
handle_initialize-IsQuiet conn s =
    if_intro {A = Server _} (λ s'. IsQuiet s s') s.initialized (λ _. IsQuiet-refl s)
      (λ _. (λ o. o, refl, refl, Grows-refl s.files))

then_send-notified :
    {N : Type 0} (s : Server N) (item : TextDocumentItem) (r : Fs N × Done)
    → Grows s.files r.0
    → ((then_send s item r).0.notified ≡ s.notified)
      × ((then_send s item r).0.notifying ≡ s.notifying)
      × Grows s.files (then_send s item r).0.files
unfolding then_send
then_send-notified s item (fs, ok u) grows = (refl, refl, grows)
then_send-notified s item (fs, err e) grows = (refl, refl, grows)
then_send-notified s item (fs, panic) grows = (refl, refl, grows)
then_send-notified s item (fs, out_of_fuel) grows = (refl, refl, grows)

module _ (platform : Platform) {N : Type 0} (sdk : Sdk) (decoder : Decoder N) where
  send-IsQuiet :
      (s : Server N) (item : TextDocumentItem) (r : Fs N × Done)
      → Offers platform sdk decoder item.uri item.version s.files r
      → IsQuiet s (then_send s item r).0
  send-IsQuiet s item r (grows, held) =
      let (notified, notifying, moves) = then_send-notified s item r grows in
      (λ o. then_send-IsOrdered s item r grows held o, notified, notifying, moves)

  handle_did_open-IsQuiet :
      (item : TextDocumentItem) (s : Server N)
      → IsQuiet s (handle_did_open platform sdk decoder item s).0
  unfolding handle_did_open
  handle_did_open-IsQuiet item s =
      if_intro {A = Server N × Done} (λ r. IsQuiet s r.0) (not (equal item.language_id language_id))
        (λ _. IsQuiet-refl s)
        λ _.
          send-IsQuiet s item
            (open_file platform sdk decoder s.files item.uri item.text item.version)
            (open_file-Offers platform sdk decoder s.files item.uri item.text item.version)

  change_with-IsQuiet :
      (params : DidChangeParams) (texts : List Bytes) (s : Server N)
      → IsQuiet s (change_with platform sdk decoder params texts s).0
  change_with-IsQuiet params [] s = IsQuiet-refl s
  change_with-IsQuiet params (text ∷ []) s =
      send-IsQuiet s
        (record {
          uri = params.uri;
          language_id = language_id;
          version = params.version;
          text = text;
        })
        (update_file platform sdk decoder s.files params.uri text params.version)
        (update_file-Offers platform sdk decoder s.files params.uri text params.version)
  change_with-IsQuiet params (text ∷ second ∷ texts) s = IsQuiet-refl s

  module _ {Raw : Type 0} (codec : Codec Raw) (registry : HandlersRegistry N) (lsp_version : Bytes)
      (close : ℕ → Done) where
    call_method-IsQuiet :
        (m : Method) (conn : ℕ) (params : Option Raw) (s : Server N)
        → m ≢ did_close
        → IsQuiet s
            (call_method platform sdk decoder codec registry lsp_version close m conn params s).0
    unfolding call_method handle_did_change handle_initialized
    call_method-IsQuiet initialize conn params s h =
        with_params-IsQuiet s (parse_request_parameters codec.to_initialize params) _
          λ u. handle_initialize-IsQuiet conn s
    call_method-IsQuiet initialized conn params s h = (λ o. o, refl, refl, Grows-refl s.files)
    call_method-IsQuiet shutdown conn params s h = IsQuiet-refl s
    call_method-IsQuiet did_open conn params s h =
        with_params-IsQuiet s (parse_request_parameters codec.to_item params) _
          λ item. handle_did_open-IsQuiet item s
    call_method-IsQuiet did_close conn params s h = absurd (h refl)
    call_method-IsQuiet did_change conn params s h =
        with_params-IsQuiet s (parse_request_parameters codec.to_change params) _
          λ change. change_with-IsQuiet change change.content_changes s
    call_method-IsQuiet completion conn params s h =
        with_params-IsQuiet s (parse_request_parameters codec.to_completion params) _
          λ p. IsQuiet-refl s
    call_method-IsQuiet hover conn params s h =
        with_params-IsQuiet s (parse_request_parameters codec.to_hover params) _ λ p. IsQuiet-refl s
    call_method-IsQuiet code_action conn params s h =
        with_params-IsQuiet s (parse_request_parameters codec.to_uri params) _ λ p. IsQuiet-refl s
    call_method-IsQuiet execute_command conn params s h =
        with_params-IsQuiet s (parse_request_parameters codec.to_execute params) _
          λ p. IsQuiet-refl s
    call_method-IsQuiet did_save conn params s h =
        with_params-IsQuiet s (parse_request_parameters codec.to_ignored params) _
          λ p. IsQuiet-refl s
    call_method-IsQuiet set_trace conn params s h =
        with_params-IsQuiet s (parse_request_parameters codec.to_ignored params) _
          λ p. IsQuiet-refl s
    call_method-IsQuiet log_trace conn params s h =
        with_params-IsQuiet s (parse_request_parameters codec.to_ignored params) _
          λ p. IsQuiet-refl s
    call_method-IsQuiet cancel_request conn params s h =
        with_params-IsQuiet s (parse_request_parameters codec.to_ignored params) _
          λ p. IsQuiet-refl s

    recovered-IsQuiet :
        (s : Server N) (r : Outcome N)
        → IsQuiet s r.0
        → IsQuiet s (recovered platform sdk decoder codec registry lsp_version close r).0
    recovered-IsQuiet s (s', ok reply) h = h
    recovered-IsQuiet s (s', err e) h = h
    recovered-IsQuiet s (s', panic) h = h
    recovered-IsQuiet s (s', out_of_fuel) h = h

    call_found-IsQuiet :
        (o : Option Method) (conn : ℕ) (params : Option Raw) (s : Server N)
        → o ≢ some did_close
        → IsQuiet s
            (call_found platform sdk decoder codec registry lsp_version close o conn params s).0
    call_found-IsQuiet none conn params s h = IsQuiet-refl s
    call_found-IsQuiet (some m) conn params s h =
        recovered-IsQuiet s
          (call_method platform sdk decoder codec registry lsp_version close m conn params s)
          (call_method-IsQuiet m conn params s (λ e. h (ap some e)))

    -- A request for another method than the one that closes files.
    abbrev pub ClosesNothing : Request Raw → Type 0
    ClosesNothing request = find_method method_names request.method ≢ some did_close

    pub handle_request-IsQuiet :
        (conn : ℕ) (request : Request Raw) (s : Server N)
        → ClosesNothing request
        → IsQuiet s
            (handle_request platform sdk decoder codec registry lsp_version close conn request s).0
    unfolding handle_request
    handle_request-IsQuiet conn request s h =
        call_found-IsQuiet (find_method method_names request.method) conn request.params s h
