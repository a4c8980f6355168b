-- ===== src/Diagnostics/Provider/Waiting.antt =====
-- `DiagnoseFile` waits for a message of each object.
use nobl9_language_server.Base.{
  ℕ, zero, suc, ◌+◌, ◌≤◌, ◌≡◌, refl, ap, ◌∙◌, Option, none, some, List, [], ◌∷◌, ◌++◌, ok, err,
  panic, out_of_fuel, ◌>>=◌, length, get_elem?, arith,
}
use nobl9_language_server.YamlPath.Filter.{Ast}
use nobl9_language_server.Manifest.{Object}
use nobl9_language_server.Files.{ObjectNode, File}
use nobl9_language_server.Files.Simple.{SimpleObjectNode}
use nobl9_language_server.Diagnostics.{Diagnostics}
use nobl9_language_server.Diagnostics.Ranges.{Shape}
use nobl9_language_server.Diagnostics.Provider.{
  Provider, diagnose_decoded, diagnose_node, diagnose_nodes, receive, diagnose_file,
}

get_elem?-beyond : {A : Type 0} (xs : List A) (i : ℕ) → length xs ≤ i → get_elem? xs i ≡ none
get_elem?-beyond [] i h = refl
get_elem?-beyond (x ∷ xs) zero h = absurd (omega arith)
get_elem?-beyond (x ∷ xs) (suc i) h = get_elem?-beyond xs i (omega arith)

module _ (p : Provider) (ast : Ast) (shape : ast.Node → Shape) where
  receive-lost :
      (ms rest : List Diagnostics) → receive p ast shape (ms ++ panic ∷ rest) ≡ out_of_fuel
  unfolding receive
  receive-lost [] rest = refl
  receive-lost (ok ds ∷ ms) rest = ap (λ r. r >>= λ more. ok (ds ++ more)) (receive-lost ms rest)
  receive-lost (err e ∷ ms) rest = refl
  receive-lost (panic ∷ ms) rest = refl
  receive-lost (out_of_fuel ∷ ms) rest = refl

  diagnose_nodes-append :
      (simple : List SimpleObjectNode) (i : ℕ) (os : List (ObjectNode ast.Node))
      (o : ObjectNode ast.Node) (rest : List (ObjectNode ast.Node))
      → (ms : List Diagnostics) × (later : List Diagnostics) × (diagnose_nodes p ast shape simple i
            (os ++ o ∷ rest)
          ≡ ms ++ diagnose_node p ast shape simple (i + length os) o ∷ later)
  unfolding diagnose_nodes
  diagnose_nodes-append simple i [] o rest = (
    [],
    diagnose_nodes p ast shape simple (suc i) rest,
    ap (λ k. diagnose_node p ast shape simple k o ∷ diagnose_nodes p ast shape simple (suc i) rest)
        (omega arith),
  )
  diagnose_nodes-append simple i (x ∷ os) o rest =
      let (ms, later, e) = diagnose_nodes-append simple (suc i) os o rest in
      (
        diagnose_node p ast shape simple i x ∷ ms,
        later,
        ap (◌∷◌ (diagnose_node p ast shape simple i x)) e
            ∙ ap
                (λ k.
                  diagnose_node p ast shape simple i x
                  ∷ (ms ++ diagnose_node p ast shape simple k o ∷ later))
                (omega arith),
      )

  diagnose_decoded-none :
      (o : Option Object) (n : ObjectNode ast.Node)
      → diagnose_decoded p ast shape o n.node none ≡ panic
  unfolding diagnose_decoded
  diagnose_decoded-none none n = refl
  diagnose_decoded-none (some o) n = refl

  diagnose_node-beyond :
      (simple : List SimpleObjectNode) (i : ℕ) (o : ObjectNode ast.Node)
      → o.error ≡ none
      → length simple ≤ i
      → diagnose_node p ast shape simple i o ≡ panic
  unfolding diagnose_node
  diagnose_node-beyond simple i o decoded h =
      rw (decoded, diagnose_node)
        (ap (λ s. diagnose_decoded p ast shape o.object o.node s) (get_elem?-beyond simple i h)
          ∙ diagnose_decoded-none o.object o)

  -- An object that was decoded, but stands behind as many objects as the simple parser found, keeps
  -- `DiagnoseFile` of a file without an error of its own from ending.
  pub diagnose_file-waits :
      (f : File ast.Node) (before : List (ObjectNode ast.Node)) (o : ObjectNode ast.Node)
      (behind : List (ObjectNode ast.Node))
      → f.error ≡ none
      → f.objects ≡ before ++ o ∷ behind
      → o.error ≡ none
      → length f.simple_ast ≤ length before
      → diagnose_file p ast shape f ≡ out_of_fuel
  unfolding diagnose_file
  diagnose_file-waits f before o behind fine split decoded h =
      let (ms, later, e) = diagnose_nodes-append f.simple_ast 0 before o behind in
      rw (fine, diagnose_file)
        (ap (λ os. receive p ast shape (diagnose_nodes p ast shape f.simple_ast 0 os)) split
          ∙ ap (receive p ast shape) e
          ∙ ap (λ m. receive p ast shape (ms ++ m ∷ later))
              (diagnose_node-beyond f.simple_ast (0 + length before) o decoded (omega arith))
          ∙ receive-lost ms later)
