-- ===== src/Files/System.antt =====
-- internal/files/filesystem.go and internal/files/uri.go. A handler holds the lock for the whole call,
-- so the calls are steps of one state.
pub mod Laws
pub mod Reachability
pub mod Versions
use nobl9_language_server.Base.{
  ℕ, zero, Bool, true, false, ◌&&◌, ◌||◌, not, Option, none, some, List, [], ◌∷◌, if◌then◌else◌,
  Exec, ok, err, panic, out_of_fuel, Done, ◌>>=◌, Error, file_not_found, file_exists, file_closed,
  unsupported_scheme,
}
use nobl9_language_server.Text.{Bytes, codes, equal, has_prefix, contains}
use nobl9_language_server.Files.{File, ℤ, negsuc, Decoder, update, update_skipped}
use nobl9_language_server.Files.Simple.{Sdk}

-- `files` maps URIs to files.
pub record Fs (N : Type 0) : Type 0 where
  pub files : Bytes → Option (File N)
  pub file_patterns : List Bytes

-- `url.ParseRequestURI` (the scheme), `filepath.ToSlash` and `doublestar.Match`.
pub record Platform : Type 0 where
  pub scheme : Bytes → Exec Bytes
  pub to_slash : Bytes → Bytes
  pub matches : Bytes → Bytes → Exec Bool

unfoldable pub trim_prefix : Bytes → Bytes → Bytes
trim_prefix [] s = s
trim_prefix (p ∷ ps) [] = []
trim_prefix (p ∷ ps) (c ∷ cs) = trim_prefix ps cs

module _ (platform : Platform) where
  unfoldable pub file_path_from_uri : Bytes → Exec Bytes
  unfolding codes equal has_prefix trim_prefix
  file_path_from_uri uri = platform.scheme uri >>= λ scheme.
      if not (equal scheme (codes "file"))
      then err unsupported_scheme
      else if has_prefix (codes "file://") uri
      then ok (trim_prefix (codes "file://") uri)
      else ok uri

  -- The loop over the patterns.
  unfoldable pub no_match : List Bytes → Bytes → Exec Bool
  no_match [] name = ok true
  no_match (p ∷ ps) name =
      platform.matches p name >>= elim [ true ↦ ok false | false ↦ no_match ps name ]

  unfoldable pub should_skip_file : List Bytes → Bytes → Bytes → Exec Bool
  unfolding codes has_prefix contains file_path_from_uri no_match
  should_skip_file [] uri content = ok (
      not (
        has_prefix (codes "# nobl9-language-server: activate") content
        || contains (codes "apiVersion: n9/") content))
  should_skip_file (p ∷ ps) uri content =
      file_path_from_uri uri >>= λ name. no_match (p ∷ ps) (platform.to_slash name)

  module _ {N : Type 0} (sdk : Sdk) (decoder : Decoder N) where
    -- How a call that has changed the file ends.
    abbrev pub ended : File N × Bool → File N × Done
    ended (f, true) = (f, ok tt)
    ended (f, false) = (f, panic)

    unfoldable pub update_as : Exec Bool → File N → Bytes → ℤ → File N × Done
    unfolding update update_skipped
    update_as (ok true) f content version = (update_skipped version content f, ok tt)
    update_as (ok false) f content version = ended (update sdk decoder version content f)
    update_as (err e) f content version = (f, err e)
    update_as panic f content version = (f, panic)
    update_as out_of_fuel f content version = (f, out_of_fuel)

    -- `updateFile`.
    unfoldable pub update_as_needed : List Bytes → File N → Bytes → ℤ → File N × Done
    unfolding should_skip_file update_as
    update_as_needed patterns f content version =
        update_as (should_skip_file patterns f.uri content) f content version

    unfoldable pub put : Bytes → Option (File N) → Fs N → Fs N
    unfolding equal
    put uri file fs = record fs { files = λ u. if equal u uri then file else fs.files u }

    -- `GetFile`; the copy has the same fields.
    unfoldable pub get_file : Fs N → Bytes → Exec (File N)
    get_file fs uri = elim (fs.files uri) [ none ↦ err (file_not_found uri) | some f ↦ ok f ]

    unfoldable pub has_file : Fs N → Bytes → Bool
    has_file fs uri = elim (fs.files uri) [ none ↦ false | some f ↦ true ]

    unfoldable pub close_file : Fs N → Bytes → Fs N × Done
    unfolding has_file put
    close_file fs uri =
        if has_file fs uri then (put uri none fs, ok tt) else (fs, err (file_closed uri))

    -- The file that `OpenFile` makes.
    abbrev pub new_file : Bytes → File N
    new_file uri = record {
      uri = uri;
      content = [];
      version = negsuc 0;
      skip = false;
      objects = [];
      simple_ast = [];
      error = none;
    }

    -- A file is stored only where the call returns without an error.
    unfoldable pub store_opened : Fs N → Bytes → File N × Done → Fs N × Done
    unfolding put
    store_opened fs uri (f, ok u) = (put uri (some f) fs, ok u)
    store_opened fs uri (f, result) = (fs, result)

    unfoldable pub open_file : Fs N → Bytes → Bytes → ℤ → Fs N × Done
    unfolding has_file store_opened update_as_needed
    open_file fs uri content version =
        if has_file fs uri
        then (fs, err (file_exists uri))
        else store_opened fs uri (update_as_needed fs.file_patterns (new_file uri) content version)

    -- What `UpdateFile` does with the file found: it is updated in place, however the call ends.
    unfoldable pub update_found : Fs N → Bytes → Bytes → ℤ → Option (File N) → Fs N × Done
    unfolding put update_as_needed
    update_found fs uri content version none = (fs, err (file_not_found uri))
    update_found fs uri content version (some f) =
        let result = update_as_needed fs.file_patterns f content version in
        (put uri (some result.0) fs, result.1)

    unfoldable pub update_file : Fs N → Bytes → Bytes → ℤ → Fs N × Done
    unfolding update_found
    update_file fs uri content version = update_found fs uri content version (fs.files uri)
