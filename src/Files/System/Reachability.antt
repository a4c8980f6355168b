-- ===== src/Files/System/Reachability.antt =====
-- The states of the file system that calls which return can reach.
use nobl9_language_server.Base.{
  ◌≡◌, ◌≢◌, refl, ap, ◌∙◌, inl, inr, true, Option, none, some, List, if_intro, Bool-cases, ok, err,
  panic, out_of_fuel, Done, Returns,
}
use mathlib.Core.Path.{subst}
use nobl9_language_server.Text.{Bytes, equal, equal_iff}
use nobl9_language_server.Files.{File, ℤ, negsuc, is_later, Decoder}
use nobl9_language_server.Files.Simple.{Sdk}
use nobl9_language_server.Files.System.{
  Fs, Platform, should_skip_file, update_as_needed, put, has_file, close_file, new_file, open_file,
  update_file, store_opened, update_found,
}
use nobl9_language_server.Files.System.Laws.{IsCurrent, IsKept, update_as-IsKept}

module _ {N : Type 0} (platform : Platform) (sdk : Sdk) (decoder : Decoder N) where
  -- A call of the file system that returns, with or without an error.
  pub data Step (fs : Fs N) : Fs N → Type 0 where
    opened :
        (uri content : Bytes) (version : ℤ)
        → Returns (open_file platform sdk decoder fs uri content version).1
        → Step fs (open_file platform sdk decoder fs uri content version).0
    updated :
        (uri content : Bytes) (version : ℤ)
        → Returns (update_file platform sdk decoder fs uri content version).1
        → Step fs (update_file platform sdk decoder fs uri content version).0
    closed : (uri : Bytes) → Step fs (close_file platform sdk decoder fs uri).0

  -- What such calls reach from `NewFS`.
  pub data Reachable (patterns : List Bytes) : Fs N → Type 0 where
    new_fs : Reachable patterns (record { files = λ _. none; file_patterns = patterns })
    next : {fs fs' : Fs N} → Reachable patterns fs → Step fs fs' → Reachable patterns fs'

  -- Every file stands under its own URI and is current.
  abbrev pub IsWellFormed : Fs N → Type 0
  IsWellFormed fs =
      (uri : Bytes) (f : File N)
      → fs.files uri ≡ some f
      → (f.uri ≡ uri) × IsCurrent platform sdk decoder f

  put-IsWellFormed :
      (fs : Fs N) (uri : Bytes) (file : Option (File N))
      → IsWellFormed fs
      → ((f : File N) → file ≡ some f → (f.uri ≡ uri) × IsCurrent platform sdk decoder f)
      → IsWellFormed (put platform sdk decoder uri file fs)
  unfolding put
  put-IsWellFormed fs uri file wf h u f at_u = elim (Bool-cases (equal u uri)) [
    | inl same ↦ rw (← (equal_iff u uri).0 same) at (h f (rw (same) at at_u))
    | inr other ↦ wf u f (rw (other) at at_u)
  ]

  update_as_needed-IsKept :
      (patterns : List Bytes) (f : File N) (content : Bytes) (version : ℤ)
      → Returns (update_as_needed platform sdk decoder patterns f content version).1
      → IsKept platform sdk decoder f
          (update_as_needed platform sdk decoder patterns f content version).0
  unfolding update_as_needed
  update_as_needed-IsKept patterns f content version back =
      update_as-IsKept platform sdk decoder (should_skip_file platform patterns f.uri content) f
        content version back

  some_injective : {f g : File N} → ◌≡◌ {A = Option (File N)} (some f) (some g) → f ≡ g
  some_injective {f} e = ap (λ o. elim o [ none ↦ f | some k ↦ k ]) e

  store_opened-IsWellFormed :
      (fs : Fs N) (uri : Bytes) (r : File N × Done)
      → IsWellFormed fs
      → (Returns r.1 → (r.0.uri ≡ uri) × IsCurrent platform sdk decoder r.0)
      → IsWellFormed (store_opened platform sdk decoder fs uri r).0
  unfolding store_opened
  store_opened-IsWellFormed fs uri (f, ok u) wf h = put-IsWellFormed fs uri (some f) wf (λ g e.
      let same : f ≡ g = some_injective e in
      subst (λ k. (k.uri ≡ uri) × IsCurrent platform sdk decoder k) same (h tt))
  store_opened-IsWellFormed fs uri (f, err e) wf h = wf
  store_opened-IsWellFormed fs uri (f, panic) wf h = wf
  store_opened-IsWellFormed fs uri (f, out_of_fuel) wf h = wf

  never_later : is_later (negsuc 0) (negsuc 0) ≢ true
  unfolding is_later
  never_later = λ e. cc

  open_file-IsWellFormed :
      (fs : Fs N) (uri content : Bytes) (version : ℤ)
      → IsWellFormed fs
      → IsWellFormed (open_file platform sdk decoder fs uri content version).0
  unfolding open_file
  open_file-IsWellFormed fs uri content version wf =
      if_intro {A = Fs N × Done} (λ r. IsWellFormed r.0) (has_file platform sdk decoder fs uri)
        (λ _. wf)
        (λ _.
          store_opened-IsWellFormed fs uri
            (update_as_needed platform sdk decoder fs.file_patterns
              (new_file platform sdk decoder uri) content version)
            wf
            (λ back.
              let kept =
                update_as_needed-IsKept fs.file_patterns (new_file platform sdk decoder uri) content
                  version back in
              (kept.0, kept.1 (λ first. absurd (never_later first)))))

  update_found-IsWellFormed :
      (fs : Fs N) (uri content : Bytes) (version : ℤ) (o : Option (File N))
      → IsWellFormed fs
      → fs.files uri ≡ o
      → Returns (update_found platform sdk decoder fs uri content version o).1
      → IsWellFormed (update_found platform sdk decoder fs uri content version o).0
  unfolding update_found
  update_found-IsWellFormed fs uri content version none wf e back = wf
  update_found-IsWellFormed fs uri content version (some f) wf e back =
      let kept = update_as_needed-IsKept fs.file_patterns f content version back in
      put-IsWellFormed fs uri
        (some (update_as_needed platform sdk decoder fs.file_patterns f content version).0) wf
        (λ g same.
          subst (λ k. (k.uri ≡ uri) × IsCurrent platform sdk decoder k) (some_injective same)
            (kept.0 ∙ (wf uri f e).0, kept.1 (wf uri f e).1))

  update_file-IsWellFormed :
      (fs : Fs N) (uri content : Bytes) (version : ℤ)
      → IsWellFormed fs
      → Returns (update_file platform sdk decoder fs uri content version).1
      → IsWellFormed (update_file platform sdk decoder fs uri content version).0
  unfolding update_file
  update_file-IsWellFormed fs uri content version wf =
      update_found-IsWellFormed fs uri content version (fs.files uri) wf refl

  close_file-IsWellFormed :
      (fs : Fs N) (uri : Bytes)
      → IsWellFormed fs
      → IsWellFormed (close_file platform sdk decoder fs uri).0
  unfolding close_file
  close_file-IsWellFormed fs uri wf =
      if_intro {A = Fs N × Done} (λ r. IsWellFormed r.0) (has_file platform sdk decoder fs uri)
        (λ _. put-IsWellFormed fs uri none wf (λ g e. cc)) (λ _. wf)

  Step-IsWellFormed : {fs fs' : Fs N} → Step fs fs' → IsWellFormed fs → IsWellFormed fs'
  Step-IsWellFormed {fs} (opened uri content version back) wf =
      open_file-IsWellFormed fs uri content version wf
  Step-IsWellFormed {fs} (updated uri content version back) wf =
      update_file-IsWellFormed fs uri content version wf back
  Step-IsWellFormed {fs} (closed uri) wf = close_file-IsWellFormed fs uri wf

  -- In every state that calls reach which return, a file stands under its own URI, and unless it is
  -- skipped, has an error or was never given content, its lines and its objects are those that the
  -- parsers make of its content.
  pub Reachable-IsWellFormed :
      {patterns : List Bytes} {fs : Fs N} → Reachable patterns fs → IsWellFormed fs
  Reachable-IsWellFormed new_fs = λ uri f e. cc
  Reachable-IsWellFormed (next before step) = Step-IsWellFormed step (Reachable-IsWellFormed before)
