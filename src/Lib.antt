-- ===== src/Lib.antt =====
-- A verification library of the Nobl9 language server.
--
-- The server keeps the open files of an editor, parses them twice, and answers from what it parsed:
-- it reports diagnostics, completes, explains and applies the objects of a file. The parts and the
-- files that model them, with paths from the repository's root:
--   * YamlAstSimple models internal/yamlastsimple/parse.go, the line parser that works on any text.
--     Lines has the lines and their positions (`Line`, `GetKeyPos`, `GetMapValue`), Scan the searches
--     for indents and colons, Lexer `parseDocumentLines`, Paths `postProcessPaths`; `ParseFile` is
--     `parse_file`. A text is a list of bytes, decoded to runes where the source ranges over it.
--   * YamlPath models internal/yamlpath: building and printing (`path.go`, `builder.go`), Parser
--     (`parse.go`), Filter (`FilterNode`, `FilterFile`), Match (`match.go`). A path is the list of the
--     nodes behind its root.
--   * YamlAst models internal/yamlast: the documents of goccy/go-yaml flattened into nodes
--     (`parse.go`), and Find the search of a tree for a line (`node.go`).
--   * Files models internal/files: `File`, its updates and its objects, Simple the simple objects,
--     System the file system, of which every call is a step of one state, since it holds the lock.
--   * Manifest and Messages have the records of nobl9-go that the code reads, and
--     internal/messages/common.go.
--   * Diagnostics models internal/diagnostics/provider.go: Existence the checks of one reference,
--     References those of each kind, Ranges the positions, Provider the diagnosis of a file, which
--     uses the objects and the lines of Files and the paths of YamlPath. Handler models
--     internal/diagnostics/handler.go, which publishes it.
--   * ObjectRef models internal/objectref/references.go, the table of references and how a line's
--     path fills their templates.
--   * Repo models internal/nobl9repo, the look-ups through the cache; Diagnostics takes look-ups as a
--     parameter.
--   * CodeActions models internal/codeactions, the commands on the objects of a file.
--   * SdkDocs models internal/sdkdocs, the documentation of properties, and Locate the loop by which
--     completion and hover find the line of a position, on the lines of Files.
--   * Completion models internal/completion: Keys, Values, References and Snippets the providers,
--     Handler the handler that asks them. Hover models internal/hover in the same way, Provider the
--     choice of the documentation and Templates the texts.
--   * Server models internal/server and internal/mux: the state of the server, Mux the dispatch of
--     requests, Registry the handlers of the other parts, Steps the requests, the channel and the loop
--     of the diagnostics as steps that interleave. Notifying is a step of
--     its own. Fresh and Capacity are about all such runs.
--   * Cli models the parsers of the flags in internal/cli/command.go, and the levels of
--     internal/logging/logging.go.
--   * Base and Text have the shared lists, outcomes, bytes, runes and decimals.
--
-- A Go function that can panic returns `Exec`, or `Option` where a panic is all that can go wrong.
-- Loops that are not structural run on fuel: `parse_file` a round for each line, `from_string` one for
-- each character and one more, `filter_node` one for each node of the path and one more, as a round
-- takes at least one of these; `find` runs as deep as the tree. `out_of_fuel` also stands for a
-- receiving loop that waits forever.
-- Numbers are natural; a file's version is an integer.
--
-- Parameters stand for what the repository calls: the parser, tokens, printer and decoder of
-- goccy/go-yaml, doublestar, url.ParseRequestURI, the parsing and validation of nobl9-go, its requests,
-- the JSON of parameters and of the embedded files, the environment with its paths, the levels of
-- log/slog, and the connection. A connection hands over one request at a time. Positions are the
-- unsigned integers of the protocol.
--
-- Not modelled: the command itself, the handlers and spans of the log, configuration and the
-- connection, which only pass values on; the order in which the goroutines of `DiagnoseFile` end,
-- taken to be that of the objects.
pub mod Base
pub mod Text
pub mod YamlAstSimple
pub mod YamlPath
pub mod YamlAst
pub mod Messages
pub mod Manifest
pub mod Files
pub mod Diagnostics
pub mod ObjectRef
pub mod Repo
pub mod CodeActions
pub mod SdkDocs
pub mod Locate
pub mod Completion
pub mod Hover
pub mod Server
pub mod Cli
