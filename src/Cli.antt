-- ===== src/Cli.antt =====
-- internal/cli/command.go and the levels of internal/logging/logging.go: what the flags and the
-- environment configure.
pub mod Patterns
pub mod Levels
mod Tests
use nobl9_language_server.Base.{
  Bool, true, false, Option, none, some, List, [], ◌∷◌, ◌++◌, ◌⊎◌, inl, inr, if◌then◌else◌, ◌==◌,
}
use nobl9_language_server.Text.{Bytes, codes, equal, has_prefix, split}
use nobl9_language_server.Text.Runes.{trim_space}
use nobl9_language_server.Manifest.{is_blank}
use nobl9_language_server.Files.{ℤ, pos, negsuc}
use nobl9_language_server.Files.System.{trim_prefix}

pub record Config : Type 0 where
  pub log_level : ℤ
  pub log_file_path : Bytes
  pub file_patterns : List Bytes

-- The errors of the three flags.
pub data Fault : Type 0 where
  unknown_level : Bytes → Fault
  invalid_file_pattern : Bytes → Fault
  no_home_directory : Fault

-- What the parsers call: `os.LookupEnv`, `os.ExpandEnv`, `os.UserHomeDir`, `filepath.Join` and
-- `filepath.Clean`, `filepath.ToSlash`, `doublestar.ValidatePattern`, `bytes.ToUpper` and the
-- `UnmarshalText` and `String` of `slog.Level`.
pub record Host : Type 0 where
  pub lookup_env : Bytes → Option Bytes
  pub expand_env : Bytes → Bytes
  pub user_home_dir : Option Bytes
  pub join_path : Bytes → Bytes → Bytes
  pub clean : Bytes → Bytes
  pub to_slash : Bytes → Bytes
  pub validate_pattern : Bytes → Bool
  pub to_upper : Bytes → Bytes
  pub slog_unmarshal : Bytes → Option ℤ
  pub slog_string : ℤ → Bytes

-- `LevelTrace`, which is -8.
abbrev pub level_trace : ℤ
level_trace = negsuc 7

abbrev pub trace_name : Bytes
trace_name = codes "TRACE"

abbrev pub env_prefix : Bytes
env_prefix = codes "NOBL9_LANGUAGE_SERVER_"

-- Whether `levelNames` has the level.
unfoldable pub is_trace : ℤ → Bool
is_trace (pos n) = false
is_trace (negsuc n) = n == 7

module _ (host : Host) where
  -- `Level.UnmarshalText`.
  unfoldable pub unmarshal_text : Bytes → Option ℤ
  unfolding equal codes
  unmarshal_text data' =
      let name = host.to_upper data' in
      if equal name trace_name then some level_trace else host.slog_unmarshal name

  -- A parser gives the configuration that it leaves behind, and its error, if there is one.
  unfoldable pub parse_log_level : Config → Bytes → Config × Option Fault
  unfolding unmarshal_text
  parse_log_level config s = elim (unmarshal_text s) [
    | none ↦ (config, some (unknown_level s))
    | some level ↦ (record config { log_level = level }, none)
  ]

  -- The loop of `parseFilePatterns`: the first pattern that is not valid, or all of them.
  abbrev pub push : Bytes → Bytes ⊎ List Bytes → Bytes ⊎ List Bytes
  push p (inl invalid) = inl invalid
  push p (inr ps) = inr (p ∷ ps)

  unfoldable pub collect : List Bytes → Bytes ⊎ List Bytes
  collect [] = inr []
  collect (p ∷ ps) =
      let rest = collect ps in
      let slashed = host.to_slash p in
      if host.validate_pattern slashed then push slashed rest else inl slashed

  unfoldable pub set_patterns : Config → Bytes ⊎ List Bytes → Config × Option Fault
  set_patterns config (inl invalid) = (config, some (invalid_file_pattern invalid))
  set_patterns config (inr ps) = (record config { file_patterns = ps }, none)

  unfoldable pub parse_file_patterns : Config → Bytes → Config × Option Fault
  unfolding is_blank trim_space split collect set_patterns
  parse_file_patterns config s =
      if is_blank (trim_space s)
      then (config, none)
      else set_patterns config (collect (split b',' s))

  unfoldable pub parse_log_file_path : Config → Bytes → Config × Option Fault
  unfolding has_prefix trim_prefix
  parse_log_file_path config s =
      let path = host.expand_env s in
      if has_prefix (b'~' ∷ []) path
      then (elim host.user_home_dir [
        | none ↦ (config, some no_home_directory)
        | some home ↦ (
          record config {
            log_file_path = host.clean (host.join_path home (trim_prefix (b'~' ∷ []) path));
          },
          none,
        )
      ])
      else (record config { log_file_path = path }, none)

  -- `parseStringWithEnvDefault`: a variable that is set is used in place of the flag's value.
  unfoldable pub parse_string_with_env_default :
      Bytes → (Config → Bytes → Config × Option Fault) → Config → Bytes → Config × Option Fault
  unfolding codes
  parse_string_with_env_default suffix parse config s =
      elim (host.lookup_env (env_prefix ++ suffix)) [
        | none ↦ parse config s
        | some v ↦ parse config v
      ]

  -- The label that `ReplaceAttr` writes for a level.
  unfoldable pub level_label : ℤ → Bytes
  unfolding codes is_trace
  level_label level = if is_trace level then trace_name else host.slog_string level
