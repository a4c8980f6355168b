-- ===== src/Server/Registry.antt =====
-- internal/server/handlers_registry.go: the handlers, of one file system, one documentation and one
-- API, which has the look-ups of all components.
use nobl9_language_server.Base.{List}
use nobl9_language_server.Files.{Decoder}
use nobl9_language_server.Files.Simple.{Sdk}
use nobl9_language_server.Files.System.{Platform, get_file}
use nobl9_language_server.SdkDocs.{ObjectDoc, new, get_property}
use nobl9_language_server.Completion.Values.{Names}
use nobl9_language_server.Completion.References.{ObjectsRepo}
use nobl9_language_server.Completion.Snippets.{Snippet}
use nobl9_language_server.Completion.Handler.{handle_completion}
use nobl9_language_server.Completion.Handler.Offers.{providers}
use nobl9_language_server.Hover.{handle_hover}
use nobl9_language_server.Hover.Provider.{HoverRepo, Printing, hover}
use nobl9_language_server.CodeActions.{
  Services, Executed, handle_code_action, handle_execute_command,
}
use nobl9_language_server.Server.Mux.{HandlersRegistry}

-- What the components take from the API, and what the packages outside the repository do.
pub record Environment : Type 0 where
  pub names : Names
  pub docs : List ObjectDoc
  pub completion_repo : ObjectsRepo
  pub hover_repo : HoverRepo
  pub printing : Printing
  pub snippets : List Snippet
  pub services : Services

unfoldable pub new_handlers_registry :
    Platform → {N : Type 0} → Sdk → Decoder N → Environment → HandlersRegistry N
unfolding new get_property providers handle_completion handle_hover hover handle_code_action
    handle_execute_command get_file
new_handlers_registry platform {N} sdk decoder env =
    let docs = get_property (new env.docs) in
    record {
      complete =
          handle_completion platform sdk decoder
            (providers env.names docs sdk env.completion_repo env.snippets);
      hover_over = handle_hover platform sdk decoder λ params node l.
          hover sdk docs env.hover_repo env.printing params.position.character node l;
      offer_actions = handle_code_action;
      execute = λ fs params.
          let executed : Executed =
            handle_execute_command env.services (get_file platform sdk decoder fs) params.0
              params.1 in
          executed.result;
    }
