-- ===== src/Messages.antt =====
-- internal/messages/common.go and internal/messages/diagnostic.go: positions, ranges and diagnostics.
use nobl9_language_server.Base.{ℕ, ◌-◌, Option}
use nobl9_language_server.Text.{Bytes}

pub record Position : Type 0 where
  pub line : ℕ
  pub character : ℕ

pub record Range : Type 0 where
  pub start : Position
  pub end : Position

-- `NewRange`: lines that count from one become lines that count from zero, and zero stays.
unfoldable pub new_range : ℕ → ℕ → ℕ → ℕ → Range
new_range sl sc el ec = record {
  start = record { line = sl - 1; character = sc };
  end = record { line = el - 1; character = ec };
}

unfoldable pub new_line_range : ℕ → ℕ → ℕ → Range
unfolding new_range
new_line_range l sc ec = new_range l sc l ec

unfoldable pub new_point_range : ℕ → ℕ → Range
unfolding new_range
new_point_range l c = new_range l c l c

-- `DiagnosticSeverityError` and `DiagnosticSeverityWarning`.
pub data Severity : Type 0 where
  error warning : Severity

-- The server's own name, or that of goccy/go-yaml.
pub data Source : Type 0 where
  server_name go_yaml_source : Source

-- A diagnostic with the positions of its related information.
pub record Diagnostic : Type 0 where
  pub range : Range
  pub severity : Severity
  pub source : Source
  pub message : Bytes
  pub related : Option Range
