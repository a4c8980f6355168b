-- ===== src/YamlAstSimple.antt =====
-- internal/yamlastsimple/parse.go: `parseDocument` and `ParseFile`.
pub mod Lines
pub mod Scan
pub mod Lexer
pub mod Paths
pub mod Tiling
pub mod Panics
pub mod Origin
mod Tests
use nobl9_language_server.Base.{
  ℕ, zero, suc, ◌+◌, Option, none, some, List, [], ◌∷◌, drop, length, Exec, ok, panic, ◌>>=◌,
  out_of_fuel,
}
use nobl9_language_server.Text.{Bytes, split}
use Lines.{Line, Document}
use Lexer.{parse_document_lines}
use Paths.{post_process_paths}

-- `none` is a panic.
unfoldable pub parse_document : List Bytes → Option Document
unfolding parse_document_lines post_process_paths
parse_document lines = elim (parse_document_lines lines) [
  | none ↦ none
  | some parsed ↦ some (record { offset = 0; lines = post_process_paths parsed })
]

-- The loop of `ParseFile`: `i` lines are done and these are left. A document of no lines would keep
-- the loop where it is, so it takes fuel.
unfoldable pub parse_docs : ℕ → ℕ → List Bytes → Exec (List Document)
unfolding parse_document
parse_docs fuel i [] = ok []
parse_docs zero i (l ∷ ls) = out_of_fuel
parse_docs (suc fuel) i (l ∷ ls) = elim (parse_document (l ∷ ls)) [
  | none ↦ panic
  | some doc ↦ do
    docs ← parse_docs fuel (i + length doc.lines) (drop (length doc.lines) (l ∷ ls))
    ok (record doc { offset = i } ∷ docs)
]

-- A round for each line is enough.
unfoldable pub parse_file : Bytes → Exec (List Document)
unfolding parse_docs
parse_file content = let lines = split b'\n' content in parse_docs (length lines) 0 lines
