-- ===== src/Server/Mux/Replies.antt =====
-- How requests are answered that no handler answers.
use nobl9_language_server.Base.{
  ℕ, ◌≡◌, ◌≢◌, ◌⊎◌, refl, inl, inr, Option, none, some, ok, err, panic, out_of_fuel, Done,
  method_not_found, missing_params, ap,
}
use nobl9_language_server.Text.{Bytes}
use nobl9_language_server.Files.{Decoder}
use nobl9_language_server.Files.Simple.{Sdk}
use nobl9_language_server.Files.System.{Platform}
use nobl9_language_server.Server.{Server}
use nobl9_language_server.Server.Mux.{
  Method, initialize, initialized, shutdown, did_open, did_close, did_save, did_change, completion,
  hover, code_action, execute_command, set_trace, log_trace, cancel_request, method_names,
  find_method, Request, Codec, HandlersRegistry, Outcome, parse_request_parameters, call_method,
  recovered, call_found, handle_request,
}

-- The methods whose handlers do not read parameters.
abbrev pub ReadsNothing : Method → Type 0
ReadsNothing m = (m ≡ initialized) ⊎ (m ≡ shutdown)

module _ (platform : Platform) {N Raw : Type 0} (sdk : Sdk) (decoder : Decoder N)
    (codec : Codec Raw) (registry : HandlersRegistry N) (lsp_version : Bytes)
    (close : ℕ → Done) where
  no_parameters :
      (m : Method) (conn : ℕ) (s : Server N)
      → ReadsNothing m
        ⊎ (call_method platform sdk decoder codec registry lsp_version close m conn none s
            ≡ (s, err missing_params))
  unfolding call_method parse_request_parameters
  no_parameters initialized conn s = inl (inl refl)
  no_parameters shutdown conn s = inl (inr refl)
  no_parameters initialize conn s = inr refl
  no_parameters did_open conn s = inr refl
  no_parameters did_close conn s = inr refl
  no_parameters did_save conn s = inr refl
  no_parameters did_change conn s = inr refl
  no_parameters completion conn s = inr refl
  no_parameters hover conn s = inr refl
  no_parameters code_action conn s = inr refl
  no_parameters execute_command conn s = inr refl
  no_parameters set_trace conn s = inr refl
  no_parameters log_trace conn s = inr refl
  no_parameters cancel_request conn s = inr refl

  recovered-ne-panic :
      (r : Outcome N)
      → (recovered platform sdk decoder codec registry lsp_version close r).1 ≢ panic
  recovered-ne-panic (s, ok reply) = λ e. cc
  recovered-ne-panic (s, err x) = λ e. cc
  recovered-ne-panic (s, panic) = λ e. cc
  recovered-ne-panic (s, out_of_fuel) = λ e. cc

  -- What is said of the answer to a request, by the method found and the parameters.
  abbrev pub IsAnswered : Option Method → Option Raw → Server N → Outcome N → Type 0
  IsAnswered none params s r = r ≡ (s, err method_not_found)
  IsAnswered (some m) none s r = (r.1 ≢ panic) × (ReadsNothing m ⊎ (r ≡ (s, err missing_params)))
  IsAnswered (some m) (some raw) s r = r.1 ≢ panic

  call_found-IsAnswered :
      (o : Option Method) (conn : ℕ) (params : Option Raw) (s : Server N)
      → IsAnswered o params s
          (call_found platform sdk decoder codec registry lsp_version close o conn params s)
  call_found-IsAnswered none conn params s = refl
  call_found-IsAnswered (some m) conn none s = (
    recovered-ne-panic
        (call_method platform sdk decoder codec registry lsp_version close m conn none s),
    elim (no_parameters m conn s) [
      | inl reads_nothing ↦ inl reads_nothing
      | inr e ↦ inr (ap (recovered platform sdk decoder codec registry lsp_version close) e)
    ],
  )
  call_found-IsAnswered (some m) conn (some raw) s =
      recovered-ne-panic
        (call_method platform sdk decoder codec registry lsp_version close m conn (some raw) s)

  -- No request ends in a panic. A request for a method that is not listed gives the error on the
  -- method, and one without parameters, for any method but initialized and shutdown, the error on
  -- missing parameters; both leave the server as it was.
  pub handle_request-IsAnswered :
      (conn : ℕ) (request : Request Raw) (s : Server N)
      → IsAnswered
          (find_method method_names request.method)
          request.params
          s
          (handle_request platform sdk decoder codec registry lsp_version close conn request s)
  unfolding handle_request
  handle_request-IsAnswered conn request s =
      call_found-IsAnswered (find_method method_names request.method) conn request.params s
