-- ===== src/Server/Capacity.antt =====
-- What waits for the client to say that it is initialized.
use nobl9_language_server.Base.{
  All, some_same, ◌≢◌, Bool-cases, inl, inr, ℕ, ◌≤◌, ◌≡◌, refl, sym, ap, ◌∙◌, false, not, Option,
  none, some, List, [], ◌∷◌, length, length-append, Exec, ok, err, panic, out_of_fuel, Done, arith,
  if_intro,
}
use mathlib.Core.Path.{subst}
use nobl9_language_server.Text.{Bytes, codes, equal, equal_iff}
use nobl9_language_server.Files.{File, Decoder}
use nobl9_language_server.Files.Simple.{Sdk}
use nobl9_language_server.Files.System.{Platform, Fs, open_file}
use nobl9_language_server.Diagnostics.{Diagnostics}
use nobl9_language_server.Server.{
  TextDocumentItem, DidChangeParams, Server, capacity, new_server, handle_initialize, then_send,
  handle_did_open, handle_did_close, handle_did_change, change_with, language_id,
}
use nobl9_language_server.Server.Mux.{
  Method, initialize, initialized, shutdown, did_open, did_close, did_save, did_change, completion,
  hover, code_action, execute_command, set_trace, log_trace, cancel_request, method_names,
  find_method, Request, Codec, HandlersRegistry, Outcome, parse_request_parameters, with_params,
  call_method, recovered, call_found, handle_request,
}
use nobl9_language_server.Server.Steps.{
  notifies, send_update, Step, requested, sent, began, ended, Reaches, started, next,
}

-- A request leaves the channel and the loop alone.
abbrev IsStill : {N : Type 0} → Server N → Server N → Type 0
IsStill s s' =
    (s'.document_updates ≡ s.document_updates)
    × (s'.diagnosing ≡ s.diagnosing)
    × (s'.notifying ≡ s.notifying)
    × (s'.notified ≡ s.notified)
    × (s'.loop_started ≡ s.loop_started)

-- The loop has not started, nothing is diagnosed or notified, and no more updates wait than the
-- channel has room for.
abbrev pub IsIdle : {N : Type 0} → Server N → Type 0
IsIdle s =
    (s.loop_started ≡ false)
    × (s.diagnosing ≡ none)
    × (s.notifying ≡ none)
    × (s.notified ≡ [])
    × (length s.document_updates ≤ capacity)

-- Only this name stands for the method `initialized`.
abbrev IsNamed : Bytes × Method → Type 0
IsNamed (name, m) = m ≡ initialized → name ≡ codes "initialized"

named :
    (ms : List (Bytes × Method)) (name : Bytes)
    → All IsNamed ms
    → find_method ms name ≡ some initialized
    → name ≡ codes "initialized"
unfolding find_method
named [] name h e = cc
named ((n, m) ∷ ms) name (this, h) e = elim (Bool-cases (equal n name)) [
  | inl same ↦ sym ((equal_iff n name).0 same) ∙ this (some_same (rw (same, find_method) at e))
  | inr other ↦ named ms name h (rw (other, find_method) at e)
]

initialized_name :
    (name : Bytes) → find_method method_names name ≡ some initialized → name ≡ codes "initialized"
unfolding method_names
initialized_name name e =
    named method_names name
      (
        λ m. cc,
        (
          λ m. refl,
          (
            λ m. cc,
            (
              λ m. cc,
              (
                λ m. cc,
                (
                  λ m. cc,
                  (
                    λ m. cc,
                    (λ m. cc, (λ m. cc, (λ m. cc, (λ m. cc, (λ m. cc, (λ m. cc, (λ m. cc, tt))))))),
                  ),
                ),
              ),
            ),
          ),
        ),
      )
      e

module _ {N : Type 0} where
  IsStill-refl : (s : Server N) → IsStill s s
  IsStill-refl s = (refl, refl, refl, refl, refl)

  with_params-IsStill {ℓ} :
      {A : Type ℓ} (s : Server N) (r : Exec A) (f : A → Outcome N)
      → ((a : A) → IsStill s (f a).0)
      → IsStill s (with_params s r f).0
  with_params-IsStill s (ok a) f h = h a
  with_params-IsStill s (err e) f h = IsStill-refl s
  with_params-IsStill s panic f h = IsStill-refl s
  with_params-IsStill s out_of_fuel f h = IsStill-refl s

  then_send-IsStill :
      (s : Server N) (item : TextDocumentItem) (r : Fs N × Done) → IsStill s (then_send s item r).0
  unfolding then_send
  then_send-IsStill s item (fs, ok u) = (refl, refl, refl, refl, refl)
  then_send-IsStill s item (fs, err e) = (refl, refl, refl, refl, refl)
  then_send-IsStill s item (fs, panic) = (refl, refl, refl, refl, refl)
  then_send-IsStill s item (fs, out_of_fuel) = (refl, refl, refl, refl, refl)

  handle_initialize-IsStill : (conn : ℕ) (s : Server N) → IsStill s (handle_initialize conn s)
  unfolding handle_initialize
  handle_initialize-IsStill conn s =
      if_intro {A = Server N} (λ s'. IsStill s s') s.initialized (λ _. IsStill-refl s)
        (λ _. (refl, refl, refl, refl, refl))

  IsIdle-IsStill : (s s' : Server N) → IsStill s s' → IsIdle s → IsIdle s'
  IsIdle-IsStill s s' (updates, diagnosing, notifying, notified, starts) (off, d, n, told, room) = (
    starts ∙ off,
    diagnosing ∙ d,
    notifying ∙ n,
    notified ∙ told,
    subst (λ is. length is ≤ capacity) (sym updates) room,
  )

module _ (platform : Platform) {N : Type 0} (sdk : Sdk) (decoder : Decoder N) where
  handle_did_open-IsStill :
      (item : TextDocumentItem) (s : Server N)
      → IsStill s (handle_did_open platform sdk decoder item s).0
  unfolding handle_did_open
  handle_did_open-IsStill item s =
      if_intro {A = Server N × Done} (λ r. IsStill s r.0) (not (equal item.language_id language_id))
        (λ _. IsStill-refl s)
        λ _.
          then_send-IsStill s item
            (open_file platform sdk decoder s.files item.uri item.text item.version)

  change_with-IsStill :
      (params : DidChangeParams) (texts : List Bytes) (s : Server N)
      → IsStill s (change_with platform sdk decoder params texts s).0
  change_with-IsStill params [] s = IsStill-refl s
  change_with-IsStill params (text ∷ []) s = then_send-IsStill s _ _
  change_with-IsStill params (text ∷ second ∷ texts) s = IsStill-refl s

  module _ {Raw : Type 0} (codec : Codec Raw) (registry : HandlersRegistry N) (lsp_version : Bytes)
      (close : ℕ → Done) where
    call_method-IsStill :
        (m : Method) (conn : ℕ) (params : Option Raw) (s : Server N)
        → m ≢ initialized
        → IsStill s
            (call_method platform sdk decoder codec registry lsp_version close m conn params s).0
    unfolding call_method handle_did_change handle_did_close
    call_method-IsStill initialize conn params s h =
        with_params-IsStill s (parse_request_parameters codec.to_initialize params) _
          λ u. handle_initialize-IsStill conn s
    call_method-IsStill initialized conn params s h = absurd (h refl)
    call_method-IsStill shutdown conn params s h = IsStill-refl s
    call_method-IsStill did_open conn params s h =
        with_params-IsStill s (parse_request_parameters codec.to_item params) _
          λ item. handle_did_open-IsStill item s
    call_method-IsStill did_close conn params s h =
        with_params-IsStill s (parse_request_parameters codec.to_uri params) _
          λ uri. (refl, refl, refl, refl, refl)
    call_method-IsStill did_change conn params s h =
        with_params-IsStill s (parse_request_parameters codec.to_change params) _
          λ change. change_with-IsStill change change.content_changes s
    call_method-IsStill completion conn params s h =
        with_params-IsStill s (parse_request_parameters codec.to_completion params) _
          λ p. IsStill-refl s
    call_method-IsStill hover conn params s h =
        with_params-IsStill s (parse_request_parameters codec.to_hover params) _ λ p. IsStill-refl s
    call_method-IsStill code_action conn params s h =
        with_params-IsStill s (parse_request_parameters codec.to_uri params) _ λ p. IsStill-refl s
    call_method-IsStill execute_command conn params s h =
        with_params-IsStill s (parse_request_parameters codec.to_execute params) _
          λ p. IsStill-refl s
    call_method-IsStill did_save conn params s h =
        with_params-IsStill s (parse_request_parameters codec.to_ignored params) _
          λ p. IsStill-refl s
    call_method-IsStill set_trace conn params s h =
        with_params-IsStill s (parse_request_parameters codec.to_ignored params) _
          λ p. IsStill-refl s
    call_method-IsStill log_trace conn params s h =
        with_params-IsStill s (parse_request_parameters codec.to_ignored params) _
          λ p. IsStill-refl s
    call_method-IsStill cancel_request conn params s h =
        with_params-IsStill s (parse_request_parameters codec.to_ignored params) _
          λ p. IsStill-refl s

    recovered-IsStill :
        (s : Server N) (r : Outcome N)
        → IsStill s r.0
        → IsStill s (recovered platform sdk decoder codec registry lsp_version close r).0
    recovered-IsStill s (s', ok reply) h = h
    recovered-IsStill s (s', err e) h = h
    recovered-IsStill s (s', panic) h = h
    recovered-IsStill s (s', out_of_fuel) h = h

    call_found-IsStill :
        (o : Option Method) (conn : ℕ) (params : Option Raw) (s : Server N)
        → o ≢ some initialized
        → IsStill s
            (call_found platform sdk decoder codec registry lsp_version close o conn params s).0
    call_found-IsStill none conn params s h = IsStill-refl s
    call_found-IsStill (some m) conn params s h =
        recovered-IsStill s
          (call_method platform sdk decoder codec registry lsp_version close m conn params s)
          (call_method-IsStill m conn params s (λ e. h (ap some e)))

    -- A request that does not say that the client is initialized.
    abbrev pub IsBefore : Request Raw → Type 0
    IsBefore request = request.method ≢ codes "initialized"

    module _ (diagnose : File N → Diagnostics) where
      Step-IsIdle :
          {s s' : Server N}
          → Step platform sdk decoder diagnose codec registry lsp_version close IsBefore s s'
          → IsIdle s
          → IsIdle s'
      unfolding handle_request send_update
      Step-IsIdle {s} (requested conn request before idle returns) h =
          IsIdle-IsStill s
            (call_found platform sdk decoder codec registry lsp_version close
              (find_method method_names request.method) conn request.params s).0
            (call_found-IsStill (find_method method_names request.method) conn request.params s
              (λ e. before (initialized_name request.method e)))
            h
      Step-IsIdle {s} (sent item e room) (off, d, n, told, bound) =
          (off, d, n, told, omega (arith, length-append s.document_updates (item ∷ [])))
      Step-IsIdle {s} (began item rest runs idle told e) (off, _, _, _, _) = cc
      Step-IsIdle {s} (ended item f e) (_, d, _, _, _) = cc
      Step-IsIdle {s} (notifies p e) (_, _, n, _, _) = cc

      -- In a run in which no request has the method `initialized`, whatever else the client asks and
      -- however requests and sends interleave: the loop of the diagnostics does not start, nothing
      -- is diagnosed or notified, and no more updates wait than the channel has room for.
      pub Reaches-IsIdle :
          {patterns : List Bytes} {s : Server N}
          → Reaches platform sdk decoder diagnose codec registry lsp_version close IsBefore patterns
              s
          → IsIdle s
      unfolding new_server
      Reaches-IsIdle started = (refl, refl, refl, refl, omega arith)
      Reaches-IsIdle (next reaches step) = Step-IsIdle step (Reaches-IsIdle reaches)
