-- ===== src/Cli/Tests.antt =====
-- Runs of the parsers of the flags.
use nobl9_language_server.Base.{
  ◌≡◌, refl, not, Option, none, some, [], ◌∷◌, ◌++◌, if◌then◌else◌, ok, ◌==◌,
}
use nobl9_language_server.Text.{Bytes, codes, equal, split, has_prefix, has_suffix}
use nobl9_language_server.Text.Runes.{trim_space}
use nobl9_language_server.Manifest.{is_blank}
use nobl9_language_server.Files.{ℤ, pos, negsuc}
use nobl9_language_server.Files.System.{Platform, file_path_from_uri, should_skip_file, trim_prefix}
use nobl9_language_server.Cli.{
  Host, Config, invalid_file_pattern, parse_log_level, collect, set_patterns, parse_file_patterns,
  parse_log_file_path, parse_string_with_env_default, level_label,
}
use nobl9_language_server.Cli.Patterns.{
  any, IsParsed, parse_file_patterns-IsParsed, parse_file_patterns-should_skip_file,
}
use nobl9_language_server.Cli.Levels.{parse_log_level-level_label}

-- Levels written as a sign and a number.
abbrev write_level : ℤ → Bytes
write_level (pos n) = b'+' ∷ n ∷ []
write_level (negsuc n) = b'-' ∷ n ∷ []

abbrev read_level : Bytes → Option ℤ
read_level (sign ∷ n ∷ []) = some (if sign == b'+' then pos n else negsuc n)
read_level _ = none

-- A machine with these levels, on which a pattern is valid that is not a backslash.
abbrev machine : Host
machine = record {
  lookup_env = λ name.
      if equal name (codes "NOBL9_LANGUAGE_SERVER_LOG_FILE_PATH")
      then some (codes "~/lsp.log")
      else none;
  expand_env = λ s. s;
  user_home_dir = some (codes "/home/me");
  join_path = λ a b. a ++ b;
  clean = λ s. s;
  to_slash = λ s. s;
  validate_pattern = λ p. not (equal p (b'\\' ∷ []));
  to_upper = λ s. s;
  slog_unmarshal = read_level;
  slog_string = write_level;
}

abbrev fresh : Config
fresh = record { log_level = pos 0; log_file_path = []; file_patterns = [] }

levels_read : (l : ℤ) → read_level (write_level l) ≡ some l
levels_read (pos n) = refl
levels_read (negsuc n) = refl

parse_log_level-level_label_example :
    (parse_log_level machine fresh (level_label machine (pos 4))
      ≡ (record fresh { log_level = pos 4 }, none))
    × (parse_log_level machine fresh (codes "TRACE")
        ≡ (record fresh { log_level = negsuc 7 }, none))
    × (level_label machine (negsuc 7) ≡ codes "TRACE")
unfolding codes
parse_log_level-level_label_example =
    parse_log_level-level_label machine refl levels_read refl fresh (pos 4) (codes "TRACE") refl

-- A pattern is here the end of a path.
abbrev disk : Platform
disk = record {
  scheme = λ uri. ok (codes "file");
  to_slash = λ s. s;
  matches = λ p name. ok (has_suffix p name);
}

abbrev yaml_files : Bytes
yaml_files = codes ".yaml,.yml"

yaml_files-parsed : (parse_file_patterns machine fresh yaml_files).1 ≡ none
unfolding parse_file_patterns collect set_patterns codes equal
yaml_files-parsed = refl

parse_file_patterns-should_skip_file_example :
    should_skip_file disk
      (parse_file_patterns machine fresh yaml_files).0.file_patterns
      (codes "file:///a.yml")
      []
    ≡ ok (not (any (λ p. has_suffix p (codes "/a.yml")) (split b',' yaml_files)))
unfolding is_blank trim_space codes file_path_from_uri
parse_file_patterns-should_skip_file_example =
    parse_file_patterns-should_skip_file machine disk has_suffix (λ p name v. refl) fresh yaml_files
      (codes "file:///a.yml") [] (codes "/a.yml") refl yaml_files-parsed refl

parse_file_patterns-IsParsed_example :
    IsParsed machine fresh yaml_files (parse_file_patterns machine fresh yaml_files)
parse_file_patterns-IsParsed_example = parse_file_patterns-IsParsed machine fresh yaml_files

-- The first pattern that is not valid is the one of the error, and nothing is configured.
backslash_refused :
    parse_file_patterns machine fresh (codes "a,\\,b")
    ≡ (fresh, some (invalid_file_pattern (b'\\' ∷ [])))
unfolding parse_file_patterns collect set_patterns codes equal
backslash_refused = refl

-- The variable goes before the flag.
variable_wins :
    parse_string_with_env_default machine
      (codes "LOG_FILE_PATH")
      (parse_log_file_path machine)
      fresh
      (codes "/tmp/log")
    ≡ (record fresh { log_file_path = codes "/home/me/lsp.log" }, none)
unfolding parse_string_with_env_default parse_log_file_path codes equal has_prefix trim_prefix
variable_wins = refl
