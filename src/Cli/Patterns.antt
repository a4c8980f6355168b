-- ===== src/Cli/Patterns.antt =====
-- The patterns of the command line, and the files that the server then works on.
use nobl9_language_server.Base.{
  suc, arith, ◌+◌, ◌≡◌, ◌≢◌, ◌⊎◌, refl, sym, ap, ◌∙◌, Bool, true, false, not, ◌||◌, Bool-cases,
  Option, none, some, List, [], ◌∷◌, ◌++◌, map, inl, inr, if_intro, All, length, ok, ◌>>=◌,
}
use mathlib.Core.Path.{subst}
use nobl9_language_server.Text.{Bytes, split, count}
use nobl9_language_server.Text.Laws.{length-split}
use nobl9_language_server.Text.Runes.{trim_space}
use nobl9_language_server.Manifest.{is_blank}
use nobl9_language_server.Files.System.{Platform, file_path_from_uri, no_match, should_skip_file}
use nobl9_language_server.Cli.{
  Host, Config, Fault, invalid_file_pattern, push, collect, set_patterns, parse_file_patterns,
}

-- Some pattern passes the test.
abbrev pub any : (Bytes → Bool) → List Bytes → Bool
any test [] = false
any test (p ∷ ps) = test p || any test ps

module _ (host : Host) where
  -- What the loop ends with: all patterns, each valid, or the first one that is not.
  abbrev pub IsCollected : List Bytes → Bytes ⊎ List Bytes → Type 0
  IsCollected ps (inr qs) =
      (qs ≡ map host.to_slash ps) × All (λ q. host.validate_pattern q ≡ true) qs
  IsCollected ps (inl q) =
      (before : List Bytes) × (p : Bytes) × (after : List Bytes) × (ps ≡ before ++ p ∷ after)
      × (q ≡ host.to_slash p)
      × (host.validate_pattern q ≡ false)
      × All (λ o. host.validate_pattern (host.to_slash o) ≡ true) before

  push-IsCollected :
      (p : Bytes) (ps : List Bytes) (r : Bytes ⊎ List Bytes)
      → host.validate_pattern (host.to_slash p) ≡ true
      → IsCollected ps r
      → IsCollected (p ∷ ps) (push host (host.to_slash p) r)
  push-IsCollected p ps (inr qs) v (e, all) = (ap (◌∷◌ (host.to_slash p)) e, (v, all))
  push-IsCollected p ps (inl q) v (before, o, after, e, is, invalid, all) =
      (p ∷ before, o, after, ap (◌∷◌ p) e, is, invalid, (v, all))

  collect-IsCollected : (ps : List Bytes) → IsCollected ps (collect host ps)
  unfolding collect
  collect-IsCollected [] = (refl, tt)
  collect-IsCollected (p ∷ ps) =
      if_intro {A = Bytes ⊎ List Bytes} (λ r. IsCollected (p ∷ ps) r)
        (host.validate_pattern (host.to_slash p))
        (λ v. push-IsCollected p ps (collect host ps) v (collect-IsCollected ps))
        (λ f. ([], p, ps, refl, refl, f, tt))

  -- How the parser ends: on a blank text it changes nothing; otherwise the patterns are the parts
  -- between the commas, all valid, or the error names the first part that is not.
  abbrev pub IsParsed : Config → Bytes → Config × Option Fault → Type 0
  IsParsed config s (c, none) =
      ((is_blank (trim_space s) ≡ true) × (c ≡ config))
      ⊎ ((is_blank (trim_space s) ≡ false)
          × (qs : List Bytes) × IsCollected (split b',' s) (inr qs)
          × (c ≡ record config { file_patterns = qs }))
  IsParsed config s (c, some (invalid_file_pattern q)) =
      (is_blank (trim_space s) ≡ false) × IsCollected (split b',' s) (inl q) × (c ≡ config)
  IsParsed config s (c, some fault) = ⊥

  set_patterns-IsParsed :
      (config : Config) (s : Bytes) (r : Bytes ⊎ List Bytes)
      → is_blank (trim_space s) ≡ false
      → IsCollected (split b',' s) r
      → IsParsed config s (set_patterns host config r)
  unfolding set_patterns
  set_patterns-IsParsed config s (inl q) e h = (e, h, refl)
  set_patterns-IsParsed config s (inr qs) e h = inr (e, qs, h, refl)

  -- `parseFilePatterns` changes nothing where the text is blank. Otherwise the configured patterns
  -- are the parts of the text between its commas, with slashes, and all of them are valid; or one is
  -- not, and then nothing changes and the error names the first of those.
  pub parse_file_patterns-IsParsed :
      (config : Config) (s : Bytes) → IsParsed config s (parse_file_patterns host config s)
  unfolding parse_file_patterns
  parse_file_patterns-IsParsed config s =
      if_intro {A = Config × Option Fault} (λ r. IsParsed config s r) (is_blank (trim_space s))
        (λ e. inl (e, refl))
        (λ e.
          set_patterns-IsParsed config s (collect host (split b',' s)) e
            (collect-IsCollected (split b',' s)))

  module _ (platform : Platform) (test : Bytes → Bytes → Bool)
      (tests : (p name : Bytes)
        → host.validate_pattern p ≡ true
        → platform.matches p name ≡ ok (test p name)) where
    no_match-any :
        (ps : List Bytes) (name : Bytes)
        → All (λ q. host.validate_pattern q ≡ true) ps
        → no_match platform ps name ≡ ok (not (any (λ p. test p name) ps))
    unfolding no_match
    no_match-any [] name h = refl
    no_match-any (p ∷ ps) name (v, h) = elim (Bool-cases (test p name)) [
      | inl e ↦ rw (tests p name v, e) refl
      | inr e ↦ rw (tests p name v, e) (no_match-any ps name h)
    ]

    should_skip_file-any :
        (ps : List Bytes) (uri content name : Bytes)
        → length ps ≢ 0
        → file_path_from_uri platform uri ≡ ok name
        → All (λ q. host.validate_pattern q ≡ true) ps
        → should_skip_file platform ps uri content
          ≡ ok (not (any (λ p. test p (platform.to_slash name)) ps))
    unfolding should_skip_file
    should_skip_file-any [] uri content name some_pattern e h = absurd (some_pattern refl)
    should_skip_file-any (p ∷ ps) uri content name some_pattern e h =
        ap (λ r. r >>= λ n. no_match platform (p ∷ ps) (platform.to_slash n)) e
        ∙ no_match-any (p ∷ ps) (platform.to_slash name) h

    any-map :
        (f : Bytes → Bool) (ps : List Bytes)
        → any f (map host.to_slash ps) ≡ any (λ p. f (host.to_slash p)) ps
    any-map f [] = refl
    any-map f (p ∷ ps) = ap (λ b. f (host.to_slash p) || b) (any-map f ps)

    length-map : (ps : List Bytes) → length (map host.to_slash ps) ≡ length ps
    length-map [] = refl
    length-map (p ∷ ps) = ap suc (length-map ps)

    patterns_parsed :
        (config : Config) (s : Bytes) (r : Config × Option Fault)
        → IsParsed config s r
        → is_blank (trim_space s) ≡ false
        → r.1 ≡ none
        → (r.0.file_patterns ≡ map host.to_slash (split b',' s))
          × All (λ q. host.validate_pattern q ≡ true) r.0.file_patterns
    patterns_parsed config s (c, none) (inl (blank, _)) b e = cc
    patterns_parsed config s (c, none) (inr (_, qs, (is, all), same)) b e = (
      ap (λ c. c.file_patterns) same ∙ is,
      subst (λ ps. All (λ q. host.validate_pattern q ≡ true) ps)
          (sym (ap (λ c. c.file_patterns) same)) all,
    )
    patterns_parsed config s (c, some fault) h b e = cc

    -- Where `ValidatePattern` accepts only patterns that `Match` can use, and the text of the flag
    -- is not blank and parsed without an error, the server skips a file, whatever its content,
    -- exactly if its path matches none of the parts of the text between the commas.
    pub parse_file_patterns-should_skip_file :
        (config : Config) (s uri content name : Bytes)
        → is_blank (trim_space s) ≡ false
        → (parse_file_patterns host config s).1 ≡ none
        → file_path_from_uri platform uri ≡ ok name
        → should_skip_file platform (parse_file_patterns host config s).0.file_patterns uri content
          ≡ ok (not (any (λ p. test (host.to_slash p) (platform.to_slash name)) (split b',' s)))
    parse_file_patterns-should_skip_file config s uri content name b e path =
        let (is, all) =
          patterns_parsed config s (parse_file_patterns host config s)
            (parse_file_patterns-IsParsed config s) b e in
        should_skip_file-any _ uri content name
          (λ none_left.
            let h : count b',' s + 1 ≡ 0 =
              sym (length-split b',' s)
              ∙ sym (length-map (split b',' s))
              ∙ sym (ap length is)
              ∙ none_left in
            omega arith)
          path all
        ∙ ap (λ ps. ok (not (any (λ p. test p (platform.to_slash name)) ps))) is
        ∙ ap (λ m. ok (not m)) (any-map (λ p. test p (platform.to_slash name)) (split b',' s))
