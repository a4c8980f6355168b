-- ===== src/Files/System/Versions.antt =====
-- Versions of files only grow.
use nobl9_language_server.Base.{
  ◌≡◌, ◌⊎◌, refl, inl, inr, Bool, true, false, some, Bool-cases, Exec, ok, err, panic, out_of_fuel,
}
use nobl9_language_server.Text.{Bytes, equal, equal_refl}
use nobl9_language_server.Files.{File, ℤ, is_later, Decoder, update, update_skipped}
use nobl9_language_server.Files.Simple.{Sdk}
use nobl9_language_server.Files.System.{
  Fs, Platform, should_skip_file, update_as, update_as_needed, ended, put, update_found,
  update_file,
}
use nobl9_language_server.Files.System.Laws.{newer, update-version, update_skipped-version}

module _ {N : Type 0} (platform : Platform) (sdk : Sdk) (decoder : Decoder N) where
  -- The file after a call that offered it a version: it has that version, if it is later, or its old
  -- one; and it is the file as it was, if the version is not later.
  abbrev pub IsUpdated : ℤ → File N → File N → Type 0
  IsUpdated version f g =
      (g.uri ≡ f.uri)
      × ((g.version ≡ f.version) ⊎ ((g.version ≡ version) × (is_later version f.version ≡ true)))
      × (is_later version f.version ≡ false → g ≡ f)

  version_of :
      (version old : ℤ) {new : ℤ}
      → new ≡ newer version old
      → (new ≡ old) ⊎ ((new ≡ version) × (is_later version old ≡ true))
  version_of version old e = elim (Bool-cases (is_later version old)) [
    | inl later ↦ inr (rw later at e, later)
    | inr stale ↦ inl (rw stale at e)
  ]

  update-IsUpdated :
      (version : ℤ) (content : Bytes) (f : File N)
      → IsUpdated version f (update sdk decoder version content f).0
  unfolding update
  update-IsUpdated version content f =
      let (uri, new) = update-version platform sdk decoder version content f in
      (uri, version_of version f.version new, λ stale. rw (stale, update) refl)

  update_skipped-IsUpdated :
      (version : ℤ) (content : Bytes) (f : File N)
      → IsUpdated version f (update_skipped version content f)
  unfolding update_skipped
  update_skipped-IsUpdated version content f =
      let (uri, new) = update_skipped-version platform sdk decoder version content f in
      (uri, version_of version f.version new, λ stale. rw (stale, update_skipped) refl)

  ended-IsUpdated :
      (version : ℤ) (f : File N) (r : File N × Bool)
      → IsUpdated version f r.0
      → IsUpdated version f (ended platform sdk decoder r).0
  ended-IsUpdated version f (g, true) h = h
  ended-IsUpdated version f (g, false) h = h

  update_as-IsUpdated :
      (skip : Exec Bool) (f : File N) (content : Bytes) (version : ℤ)
      → IsUpdated version f (update_as platform sdk decoder skip f content version).0
  unfolding update_as
  update_as-IsUpdated (ok true) f content version = update_skipped-IsUpdated version content f
  update_as-IsUpdated (ok false) f content version =
      ended-IsUpdated version f (update sdk decoder version content f)
        (update-IsUpdated version content f)
  update_as-IsUpdated (err e) f content version = (refl, inl refl, λ stale. refl)
  update_as-IsUpdated panic f content version = (refl, inl refl, λ stale. refl)
  update_as-IsUpdated out_of_fuel f content version = (refl, inl refl, λ stale. refl)

  update_found-IsUpdated :
      (fs : Fs N) (uri content : Bytes) (version : ℤ) (f : File N)
      → (g : File N) × ((update_found platform sdk decoder fs uri content version (some f)).0.files
            uri
          ≡ some g)
        × IsUpdated version f g
  unfolding update_found put update_as_needed
  update_found-IsUpdated fs uri content version f =
      let skip = should_skip_file platform fs.file_patterns f.uri content in
      let g = (update_as platform sdk decoder skip f content version).0 in
      (g, rw (equal_refl uri) refl, update_as-IsUpdated skip f content version)

  update_found-other :
      (fs : Fs N) (uri content : Bytes) (version : ℤ) (f : File N) (other : Bytes)
      → equal other uri ≡ false
      → (update_found platform sdk decoder fs uri content version (some f)).0.files other
        ≡ fs.files other
  unfolding update_found put
  update_found-other fs uri content version f other apart = rw apart refl

  -- `UpdateFile` of a file that is there keeps it there, however the call ends, and leaves the files
  -- of other URIs alone. The file then has its old version, or the version offered if that is later;
  -- a version that is not later changes nothing.
  pub update_file-IsUpdated :
      (fs : Fs N) (uri content : Bytes) (version : ℤ) (f : File N)
      → fs.files uri ≡ some f
      → ((g : File N) × ((update_file platform sdk decoder fs uri content version).0.files uri
            ≡ some g)
          × IsUpdated version f g)
        × ((other : Bytes)
            → equal other uri ≡ false
            → (update_file platform sdk decoder fs uri content version).0.files other
              ≡ fs.files other)
  unfolding update_file
  update_file-IsUpdated fs uri content version f there =
      rw (there, update_file)
        (
          update_found-IsUpdated fs uri content version f,
          update_found-other fs uri content version f,
        )
