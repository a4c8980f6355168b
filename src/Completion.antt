-- ===== src/Completion.antt =====
-- internal/completion: the items and the providers, which the children model one by one, and
-- internal/messages/completion.go. Positions are the unsigned integers of the protocol.
pub mod Keys
pub mod Values
pub mod References
pub mod Snippets
pub mod Handler
pub mod Kinds
use nobl9_language_server.Base.{ℕ, Option, List, Exec}
use nobl9_language_server.Text.{Bytes}
use nobl9_language_server.Manifest.{Kind}
use nobl9_language_server.Messages.{Position}
use nobl9_language_server.YamlAstSimple.Lines.{Line}
use nobl9_language_server.Files.Simple.{SimpleObjectNode}
use nobl9_language_server.SdkDocs.{Found}

-- The kinds of items that the providers make.
pub data ItemKind : Type 0 where
  property_completion value_completion snippet_completion reference_completion : ItemKind

-- `InsertTextFormat`, with its zero value.
pub data TextFormat : Type 0 where
  no_format plain_text snippet_text : TextFormat

-- The fields of `CompletionItem` that are set somewhere.
pub record Item : Type 0 where
  pub label : Bytes
  pub kind : ItemKind
  pub insert_text : Bytes
  pub format : TextFormat

pub record Params : Type 0 where
  pub uri : Bytes
  pub position : Position
  pub trigger_character : Option Bytes

-- `completionProviderType`.
pub data ProviderType : Type 0 where
  keys_completion values_completion : ProviderType

-- `docsProvider`.
abbrev pub GetProperty : Type 0
GetProperty = Kind → Bytes → Found

-- `providerInterface`, with what `Complete` reads of its arguments.
pub record Provider : Type 0 where
  pub provider_type : ProviderType
  pub complete : Params → List SimpleObjectNode → SimpleObjectNode → Line → Exec (List Item)
