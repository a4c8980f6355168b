-- ===== src/Files/System/Laws.antt =====
-- What the calls of the file system keep: every file stands under its own URI, and what was parsed
-- belongs to its content.
use nobl9_language_server.Base.{
  ◌≡◌, refl, sym, ap, ◌∙◌, inl, inr, Bool, true, false, none, List, if◌then◌else◌, Bool-cases, Exec,
  ok, err, panic, out_of_fuel, Returns,
}
use nobl9_language_server.Text.{Bytes}
use nobl9_language_server.YamlAst.{Node, parse}
use nobl9_language_server.Files.{
  File, ℤ, negsuc, is_later, Decoder, update, update_skipped, set_simple, set_objects,
  parse_object_nodes,
}
use nobl9_language_server.Files.Simple.{Sdk, SimpleObjectNode, parse_simple_object_file}
use nobl9_language_server.Files.System.{Platform, update_as, ended}

-- The version of a file after a call that offers it `version`.
abbrev pub newer : ℤ → ℤ → ℤ
newer version old = if is_later version old then version else old

module _ {N : Type 0} (platform : Platform) (sdk : Sdk) (decoder : Decoder N) where
  -- The objects and the lines of the file are those of its content.
  abbrev pub IsParsed : File N → Type 0
  IsParsed f =
      (parse_simple_object_file sdk f.content ≡ ok f.simple_ast)
      × ((nodes : List (Node N)) × (parse decoder.parser f.content ≡ ok nodes)
          × (f.objects ≡ (parse_object_nodes sdk decoder nodes).0))

  -- They are, unless the file is skipped, has an error, or has not been given any content yet.
  abbrev pub IsCurrent : File N → Type 0
  IsCurrent f = is_later f.version (negsuc 0) ≡ true → f.skip ≡ false → f.error ≡ none → IsParsed f

  set_objects-IsCurrent :
      (f : File N) (nodes : Exec (List (Node N)))
      → parse_simple_object_file sdk f.content ≡ ok f.simple_ast
      → parse decoder.parser f.content ≡ nodes
      → (set_objects sdk decoder f nodes).1 ≡ true
      → IsCurrent (set_objects sdk decoder f nodes).0
  unfolding set_objects
  set_objects-IsCurrent f (ok nodes) s p done = λ _ _ _. (s, (nodes, p, refl))
  set_objects-IsCurrent f (err e) s p done = λ _ _ none'. cc
  set_objects-IsCurrent f panic s p done = cc
  set_objects-IsCurrent f out_of_fuel s p done = cc

  set_simple-IsCurrent :
      (f : File N) (simple : Exec (List SimpleObjectNode)) (nodes : Exec (List (Node N)))
      → parse_simple_object_file sdk f.content ≡ simple
      → parse decoder.parser f.content ≡ nodes
      → (set_simple sdk decoder f simple nodes).1 ≡ true
      → IsCurrent (set_simple sdk decoder f simple nodes).0
  unfolding set_simple
  set_simple-IsCurrent f (ok simple) nodes s p done =
      set_objects-IsCurrent (record f { simple_ast = simple; error = none }) nodes s p done
  set_simple-IsCurrent f (err e) nodes s p done = λ _ _ none'. cc
  set_simple-IsCurrent f panic nodes s p done = cc
  set_simple-IsCurrent f out_of_fuel nodes s p done = cc

  update-IsCurrent :
      (version : ℤ) (content : Bytes) (f : File N)
      → IsCurrent f
      → (update sdk decoder version content f).1 ≡ true
      → IsCurrent (update sdk decoder version content f).0
  unfolding update
  update-IsCurrent version content f current done = elim (Bool-cases (is_later version f.version)) [
    | inl later ↦
        rw (later, update)
          (set_simple-IsCurrent (record f { version = version; content = content; skip = false })
            (parse_simple_object_file sdk content) (parse decoder.parser content) refl refl
            (rw (later, update) at done))
    | inr stale ↦ rw (stale, update) current
  ]

  set_simple-uri :
      (f : File N) (simple : Exec (List SimpleObjectNode)) (nodes : Exec (List (Node N)))
      → ((set_simple sdk decoder f simple nodes).0.uri ≡ f.uri)
        × ((set_simple sdk decoder f simple nodes).0.version ≡ f.version)
  unfolding set_simple set_objects
  set_simple-uri f (ok simple) (ok nodes) = (refl, refl)
  set_simple-uri f (ok simple) (err e) = (refl, refl)
  set_simple-uri f (ok simple) panic = (refl, refl)
  set_simple-uri f (ok simple) out_of_fuel = (refl, refl)
  set_simple-uri f (err e) nodes = (refl, refl)
  set_simple-uri f panic nodes = (refl, refl)
  set_simple-uri f out_of_fuel nodes = (refl, refl)

  pub update-version :
      (version : ℤ) (content : Bytes) (f : File N)
      → ((update sdk decoder version content f).0.uri ≡ f.uri)
        × ((update sdk decoder version content f).0.version ≡ newer version f.version)
  unfolding update
  update-version version content f = elim (Bool-cases (is_later version f.version)) [
    | inl later ↦
        rw (later, update)
          (set_simple-uri (record f { version = version; content = content; skip = false })
            (parse_simple_object_file sdk content) (parse decoder.parser content))
    | inr stale ↦ rw (stale, update) (refl, refl)
  ]

  update_skipped-IsCurrent :
      (version : ℤ) (content : Bytes) (f : File N)
      → IsCurrent f
      → IsCurrent (update_skipped version content f)
  unfolding update_skipped
  update_skipped-IsCurrent version content f current =
      elim (Bool-cases (is_later version f.version)) [
        | inl later ↦ rw (later, update_skipped) (λ _ kept _. cc)
        | inr stale ↦ rw (stale, update_skipped) current
      ]

  pub update_skipped-version :
      (version : ℤ) (content : Bytes) (f : File N)
      → ((update_skipped version content f).uri ≡ f.uri)
        × ((update_skipped version content f).version ≡ newer version f.version)
  unfolding update_skipped
  update_skipped-version version content f = elim (Bool-cases (is_later version f.version)) [
    | inl later ↦ rw (later, update_skipped) (refl, refl)
    | inr stale ↦ rw (stale, update_skipped) (refl, refl)
  ]

  -- A file that keeps its URI, and what it knows of its content.
  abbrev pub IsKept : File N → File N → Type 0
  IsKept f g = (g.uri ≡ f.uri) × (IsCurrent f → IsCurrent g)

  pub update_as-IsKept :
      (skip : Exec Bool) (f : File N) (content : Bytes) (version : ℤ)
      → Returns (update_as platform sdk decoder skip f content version).1
      → IsKept f (update_as platform sdk decoder skip f content version).0
  unfolding update_as
  update_as-IsKept (ok true) f content version back =
      ((update_skipped-version version content f).0, update_skipped-IsCurrent version content f)
  update_as-IsKept (ok false) f content version back =
      go (update sdk decoder version content f) refl back
    where
      go :
          (r : File N × Bool)
          → update sdk decoder version content f ≡ r
          → Returns (ended platform sdk decoder r).1
          → IsKept f (ended platform sdk decoder r).0
      go (g, true) e back' = (
        sym (ap (λ r. r.0.uri) e) ∙ (update-version version content f).0,
        λ current. rw e at (update-IsCurrent version content f current (ap (λ r. r.1) e)),
      )
      go (g, false) e back' = absurd back'
  update_as-IsKept (err e) f content version back = (refl, λ current. current)
  update_as-IsKept panic f content version back = absurd back
  update_as-IsKept out_of_fuel f content version back = absurd back
