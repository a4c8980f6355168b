-- ===== src/Server/Mux.antt =====
-- internal/mux/mux.go, with the handlers of `GetHandlers` and the decoding of their parameters in
-- internal/server/server.go.
pub mod Replies
use nobl9_language_server.Base.{
  ℕ, Bool, Option, none, some, List, [], ◌∷◌, map, if◌then◌else◌, Exec, ok, err, panic, out_of_fuel,
  Done, ◌>>=◌, method_not_found, missing_params,
}
use nobl9_language_server.Text.{Bytes, codes, equal}
use nobl9_language_server.Files.{Decoder}
use nobl9_language_server.Files.Simple.{Sdk}
use nobl9_language_server.Files.System.{Platform, Fs}
use nobl9_language_server.Completion.{Item, Params}
use nobl9_language_server.Hover.{HoverParams}
use nobl9_language_server.CodeActions.{command_titles}
use nobl9_language_server.Server.{
  TextDocumentItem, DidChangeParams, Server, handle_initialize, handle_initialized, handle_shutdown,
  handle_did_open, handle_did_close, handle_did_change,
}

pub data Method : Type 0 where
  initialize initialized shutdown did_open did_close did_save did_change : Method
  completion hover code_action execute_command set_trace log_trace cancel_request : Method

-- The names, in the order of `GetHandlers`.
unfoldable pub method_names : List (Bytes × Method)
unfolding codes
method_names =
    (codes "initialize", initialize)
    ∷ (codes "initialized", initialized)
    ∷ (codes "shutdown", shutdown)
    ∷ (codes "textDocument/didOpen", did_open)
    ∷ (codes "textDocument/didClose", did_close)
    ∷ (codes "textDocument/didSave", did_save)
    ∷ (codes "textDocument/didChange", did_change)
    ∷ (codes "textDocument/completion", completion)
    ∷ (codes "textDocument/hover", hover)
    ∷ (codes "textDocument/codeAction", code_action)
    ∷ (codes "workspace/executeCommand", execute_command)
    ∷ (codes "$/setTrace", set_trace)
    ∷ (codes "$/logTrace", log_trace)
    ∷ (codes "$/cancelRequest", cancel_request)
    ∷ []

unfoldable pub find_method : List (Bytes × Method) → Bytes → Option Method
unfolding equal
find_method [] name = none
find_method ((n, m) ∷ rest) name = if equal n name then some m else find_method rest name

-- The command and its arguments, of which one that is no text is `none`.
abbrev pub ExecuteParams : Type 0
ExecuteParams = Bytes × List (Option Bytes)

-- `json.Unmarshal` for the types of the parameters. `json.RawMessage` is the type `Raw`.
pub record Codec (Raw : Type 0) : Type 0 where
  pub to_initialize : Raw → Done
  pub to_item : Raw → Exec TextDocumentItem
  pub to_uri : Raw → Exec Bytes
  pub to_change : Raw → Exec DidChangeParams
  pub to_completion : Raw → Exec Params
  pub to_hover : Raw → Exec HoverParams
  pub to_execute : Raw → Exec ExecuteParams
  pub to_ignored : Raw → Done

pub record Request (Raw : Type 0) : Type 0 where
  pub method : Bytes
  pub params : Option Raw

-- A result: nil, the commands that are offered and the version, or what another component made.
pub data Reply : Type 0 where
  nil_reply : Reply
  capabilities : List Bytes → Bytes → Reply
  completed : Option (List Item) → Reply
  hovered : Option Bytes → Reply
  actions : List (Bytes × Bytes × Bytes) → Reply

-- `handlersRegistry`, without the diagnostics.
pub record HandlersRegistry (N : Type 0) : Type 0 where
  pub complete : Fs N → Params → Exec (Option (List Item))
  pub hover_over : Fs N → HoverParams → Exec (Option Bytes)
  pub offer_actions : Bytes → List (Bytes × Bytes × Bytes)
  pub execute : Fs N → ExecuteParams → Done

-- `parseRequestParameters`; the error of the decoding is an external one.
unfoldable pub parse_request_parameters {ℓ} :
    {Raw : Type 0} {A : Type ℓ} → (Raw → Exec A) → Option Raw → Exec A
parse_request_parameters decode none = err missing_params
parse_request_parameters decode (some raw) = decode raw

abbrev pub Outcome : Type 0 → Type 0
Outcome N = Server N × Exec Reply

-- A handler called on the parameters, if they could be read.
abbrev pub with_params {ℓ} :
    {N : Type 0} {A : Type ℓ} → Server N → Exec A → (A → Outcome N) → Outcome N
with_params s (ok a) f = f a
with_params s (err e) f = (s, err e)
with_params s panic f = (s, panic)
with_params s out_of_fuel f = (s, out_of_fuel)

-- A nil result beside the error of a call.
abbrev pub nil_after : {N : Type 0} → Server N × Done → Outcome N
nil_after (s, r) = (s, r >>= λ u. ok nil_reply)

module _ (platform : Platform) {N Raw : Type 0} (sdk : Sdk) (decoder : Decoder N)
    (codec : Codec Raw) (registry : HandlersRegistry N) (lsp_version : Bytes)
    (close : ℕ → Done) where
  -- The handlers that `GetHandlers` lists.
  unfoldable pub call_method : Method → ℕ → Option Raw → Server N → Outcome N
  unfolding parse_request_parameters handle_initialize handle_initialized handle_shutdown
      handle_did_open handle_did_close handle_did_change command_titles
  call_method initialize conn params s =
      with_params s (parse_request_parameters codec.to_initialize params) λ u. (
        handle_initialize conn s,
        ok (capabilities (map (λ (c : Bytes × Bytes). c.0) command_titles) lsp_version),
      )
  call_method initialized conn params s = (handle_initialized s, ok nil_reply)
  call_method shutdown conn params s = nil_after (s, handle_shutdown close s)
  call_method did_open conn params s =
      with_params s (parse_request_parameters codec.to_item params)
        λ item. nil_after (handle_did_open platform sdk decoder item s)
  call_method did_close conn params s =
      with_params s (parse_request_parameters codec.to_uri params)
        λ uri. nil_after (handle_did_close platform sdk decoder uri s)
  call_method did_change conn params s =
      with_params s (parse_request_parameters codec.to_change params)
        λ change. nil_after (handle_did_change platform sdk decoder change s)
  call_method completion conn params s =
      with_params s (parse_request_parameters codec.to_completion params)
        λ p. (s, registry.complete s.files p >>= λ items. ok (completed items))
  call_method hover conn params s =
      with_params s (parse_request_parameters codec.to_hover params)
        λ p. (s, registry.hover_over s.files p >>= λ text. ok (hovered text))
  call_method code_action conn params s =
      with_params s (parse_request_parameters codec.to_uri params)
        λ uri. (s, ok (actions (registry.offer_actions uri)))
  call_method execute_command conn params s =
      with_params s (parse_request_parameters codec.to_execute params)
        λ p. (s, registry.execute s.files p >>= λ u. ok nil_reply)
  call_method did_save conn params s =
      with_params s (parse_request_parameters codec.to_ignored params) λ u. (s, ok nil_reply)
  call_method set_trace conn params s =
      with_params s (parse_request_parameters codec.to_ignored params) λ u. (s, ok nil_reply)
  call_method log_trace conn params s =
      with_params s (parse_request_parameters codec.to_ignored params) λ u. (s, ok nil_reply)
  call_method cancel_request conn params s =
      with_params s (parse_request_parameters codec.to_ignored params) λ u. (s, ok nil_reply)

  -- The deferred `recover`: a panic leaves nil for both results.
  abbrev pub recovered : Outcome N → Outcome N
  recovered (s, panic) = (s, ok nil_reply)
  recovered (s, ok reply) = (s, ok reply)
  recovered (s, err e) = (s, err e)
  recovered (s, out_of_fuel) = (s, out_of_fuel)

  abbrev pub call_found : Option Method → ℕ → Option Raw → Server N → Outcome N
  call_found none conn params s = (s, err method_not_found)
  call_found (some m) conn params s = recovered (call_method m conn params s)

  -- `Mux.Handle`.
  unfoldable pub handle_request : ℕ → Request Raw → Server N → Outcome N
  unfolding find_method method_names call_method
  handle_request conn request s =
      call_found (find_method method_names request.method) conn request.params s
