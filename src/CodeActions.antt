-- ===== src/CodeActions.antt =====
-- internal/codeactions: the commands on the objects of a file. What the handler sends is listed.
pub mod Stale
mod Tests
use nobl9_language_server.Base.{
  ℕ, Bool, true, false, Option, none, some, List, [], ◌∷◌, ◌++◌, map, if◌then◌else◌, Exec, ok, err,
  panic, out_of_fuel, Done, Error, invalid_arguments, unknown_command,
}
use nobl9_language_server.Text.{Bytes, codes, equal}
use nobl9_language_server.Manifest.{Object}
use nobl9_language_server.Files.{File, ObjectNode}

-- `commandApply` and its fellows, and any other text.
pub data Command : Type 0 where
  apply apply_dry_run delete : Command
  other_command : Bytes → Command

unfoldable pub read_command : Bytes → Command
unfolding codes equal
read_command name =
    if equal name (codes "APPLY")
    then apply
    else if equal name (codes "APPLY_DRY_RUN")
    then apply_dry_run
    else if equal name (codes "DELETE")
    then delete
    else other_command name

-- The titles of `codeActionCommands` in the order of `codeActionCommandNames`.
unfoldable pub command_titles : List (Bytes × Bytes)
unfolding codes
command_titles =
    (codes "APPLY", codes "Apply objects defined in this file")
    ∷ (codes "APPLY_DRY_RUN", codes "Apply objects defined in this file (dry-run)")
    ∷ (codes "DELETE", codes "Delete objects defined in this file")
    ∷ []

-- `HandleCodeAction`: the commands offered on a file, each with its title, its name and the URI.
unfoldable pub handle_code_action : Bytes → List (Bytes × Bytes × Bytes)
unfolding command_titles
handle_code_action uri = map (λ (c : Bytes × Bytes). (c.1, c.0, uri)) command_titles

unfoldable pub failed_message : Command → Bytes
unfolding codes
failed_message apply = codes "Failed to apply objects"
failed_message apply_dry_run = codes "Failed to apply objects (dry-run)"
failed_message delete = codes "Failed to delete objects"
failed_message (other_command name) = []

unfoldable pub success_message : Command → Bytes
unfolding codes
success_message apply = codes "Objects applied successfully"
success_message apply_dry_run = codes "Objects applied successfully (dry-run)"
success_message delete = codes "Objects deleted successfully"
success_message (other_command name) = []

-- A request to the API; an object that was not decoded is nil.
pub data Request : Type 0 where
  apply_objects delete_objects : List (Option Object) → Request

-- `objectsRepo` and `clientNotifier`.
pub record Services : Type 0 where
  pub send : Request → Done
  pub notify : Bytes → Done

pub record Executed : Type 0 where
  pub requests : List Request
  pub messages : List Bytes
  pub result : Done

abbrev pub not_executed : Done → Executed
not_executed r = record { requests = []; messages = []; result = r }

module _ (services : Services) where
  -- The message that is shown, and the result of sending it.
  unfoldable pub show : List Request → Bytes → Executed
  show requests message = record {
    requests = requests;
    messages = message ∷ [];
    result = services.notify message;
  }

  unfoldable pub show_outcome : Command → List Request → Done → Executed
  unfolding show success_message failed_message
  show_outcome command requests (ok u) = show requests (success_message command)
  show_outcome command requests (err e) = show requests (failed_message command)
  show_outcome command requests panic = record {
    requests = requests;
    messages = [];
    result = panic;
  }
  show_outcome command requests out_of_fuel = record {
    requests = requests;
    messages = [];
    result = out_of_fuel;
  }

  -- The switch; the dry run sends nothing.
  unfoldable pub run_command : Command → List (Option Object) → Executed
  unfolding show_outcome
  run_command apply objects =
      show_outcome apply (apply_objects objects ∷ []) (services.send (apply_objects objects))
  run_command apply_dry_run objects = show_outcome apply_dry_run [] (ok tt)
  run_command delete objects =
      show_outcome delete (delete_objects objects ∷ []) (services.send (delete_objects objects))
  run_command (other_command name) objects = not_executed (err unknown_command)

  unfoldable pub objects_of : {N : Type 0} → List (ObjectNode N) → List (Option Object)
  objects_of [] = []
  objects_of (o ∷ os) = o.object ∷ objects_of os

  unfoldable pub execute_on : {N : Type 0} → Command → Exec (File N) → Executed
  unfolding run_command objects_of
  execute_on command (ok f) =
      if f.skip then not_executed (ok tt) else run_command command (objects_of f.objects)
  execute_on command (err e) = not_executed (err e)
  execute_on command panic = not_executed panic
  execute_on command out_of_fuel = not_executed out_of_fuel

  -- `HandleExecuteCommand`, on the file system's answer for a URI. There is no test whether there is
  -- a first argument; one that is no text is `none`.
  unfoldable pub handle_execute_command :
      {N : Type 0} → (Bytes → Exec (File N)) → Bytes → List (Option Bytes) → Executed
  unfolding execute_on read_command
  handle_execute_command get_file command [] = not_executed panic
  handle_execute_command get_file command (none ∷ rest) = not_executed (err invalid_arguments)
  handle_execute_command get_file command (some uri ∷ rest) =
      execute_on (read_command command) (get_file uri)
