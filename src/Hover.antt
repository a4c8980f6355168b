-- ===== src/Hover.antt =====
-- internal/hover/handler.go.
pub mod Templates
pub mod Provider
mod Tests
use nobl9_language_server.Base.{ℕ, Option, none, some, if◌then◌else◌, Exec, ok, ◌>>=◌}
use nobl9_language_server.Text.{Bytes}
use nobl9_language_server.Messages.{Position}
use nobl9_language_server.YamlAstSimple.Lines.{Line}
use nobl9_language_server.Files.{File, Decoder}
use nobl9_language_server.Files.Simple.{Sdk, SimpleObjectNode}
use nobl9_language_server.Files.System.{Platform, Fs, get_file}
use nobl9_language_server.Locate.{locate}

pub record HoverParams : Type 0 where
  pub uri : Bytes
  pub position : Position

-- The Markdown of a response, or none for a nil one.
abbrev pub Response : Type 0
Response = Exec (Option Bytes)

abbrev pub hover_at :
    (HoverParams → SimpleObjectNode → Line → Response)
    → HoverParams
    → Option (SimpleObjectNode × Line)
    → Response
hover_at provider params none = ok none
hover_at provider params (some (node, l)) = provider params node l

module _ (platform : Platform) {N : Type 0} (sdk : Sdk) (decoder : Decoder N) where
  -- `Handle`, with `Hover` of the provider.
  unfoldable pub handle_hover :
      (HoverParams → SimpleObjectNode → Line → Response) → Fs N → HoverParams → Response
  unfolding get_file locate
  handle_hover provider fs params =
      get_file platform sdk decoder fs params.uri >>= λ (file : File N).
      if file.skip
      then ok none
      else hover_at provider params (locate file.simple_ast params.position.line)
