-- ===== src/CodeActions/Stale.antt =====
-- A command on a file that could not be parsed.
use nobl9_language_server.Base.{
  ◌≡◌, refl, true, false, Option, some, List, [], ◌∷◌, ok, err, panic, out_of_fuel, Done, Error,
}
use nobl9_language_server.Text.{Bytes, codes, equal}
use nobl9_language_server.YamlAst.{parse}
use nobl9_language_server.Files.{File, ℤ, is_later, Decoder, update, set_simple, set_objects}
use nobl9_language_server.Files.Simple.{Sdk, SimpleObjectNode, parse_simple_object_file}
use nobl9_language_server.CodeActions.{
  Services, Command, Request, show, apply, apply_objects, read_command, objects_of, run_command,
  execute_on, handle_execute_command, show_outcome,
}

show_outcome-requests :
    (services : Services) (command : Command) (requests : List Request) (r : Done)
    → (show_outcome services command requests r).requests ≡ requests
unfolding show_outcome show
show_outcome-requests services command requests (ok u) = refl
show_outcome-requests services command requests (err e) = refl
show_outcome-requests services command requests panic = refl
show_outcome-requests services command requests out_of_fuel = refl

module _ {N : Type 0} (sdk : Sdk) (decoder : Decoder N) where
  update-broken :
      (version : ℤ) (content : Bytes) (f : File N) (simple : List SimpleObjectNode) (e : Error)
      → is_later version f.version ≡ true
      → parse_simple_object_file sdk content ≡ ok simple
      → parse decoder.parser content ≡ err e
      → update sdk decoder version content f ≡ (
        record f {
          version = version;
          content = content;
          skip = false;
          simple_ast = simple;
          error = some e;
        },
        true,
      )
  unfolding update set_simple set_objects
  update-broken version content f simple e later lines broken =
      rw (later, update) (rw lines (rw broken refl))

  -- `APPLY` on a file whose newer text goccy/go-yaml refused sends the objects of the older text: the
  -- file has the new text, an error, and the objects as they were before.
  pub execute-update_broken :
      (services : Services) (version : ℤ) (content uri : Bytes) (f : File N)
      (simple : List SimpleObjectNode) (e : Error) (rest : List (Option Bytes))
      → is_later version f.version ≡ true
      → parse_simple_object_file sdk content ≡ ok simple
      → parse decoder.parser content ≡ err e
      → ((update sdk decoder version content f).0.content ≡ content)
        × ((update sdk decoder version content f).0.error ≡ some e)
        × ((handle_execute_command services
              (λ u. ok (update sdk decoder version content f).0)
              (codes "APPLY")
              (some uri ∷ rest)).requests
            ≡ apply_objects (objects_of services f.objects) ∷ [])
  unfolding handle_execute_command read_command codes equal execute_on run_command
  execute-update_broken services version content uri f simple e rest later lines broken =
      rw (update-broken version content f simple e later lines broken) (
        refl,
        refl,
        show_outcome-requests services apply (apply_objects (objects_of services f.objects) ∷ [])
            (services.send (apply_objects (objects_of services f.objects))),
      )
